-- ===== src/GateServer/Url/Tests.antt =====
-- Runs of the URL coding.
use learncc.Prelude.{ℕ, ◌≡◌, refl, List, [], ◌∷◌, none}
use learncc.GateServer.Url.{url_encode, url_decode, encode_char, is_plain, is_alnum, to_hex}

-- "a b&"
abbrev text : List ℕ
text = b'a' ∷ b' ' ∷ b'b' ∷ b'&' ∷ []

url_encode-text : url_encode text ≡ b'a' ∷ b'+' ∷ b'b' ∷ b'%' ∷ b'2' ∷ b'6' ∷ []
unfolding url_encode encode_char is_plain is_alnum to_hex
url_encode-text = refl

url_decode_short : url_decode (b'a' ∷ b'%' ∷ b'2' ∷ []) ≡ none
unfolding url_decode
url_decode_short = refl
