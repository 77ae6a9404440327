-- ===== src/GateServer/Url/RoundTrip.antt =====
-- Decoding undoes encoding.
use learncc.Prelude.{
  ℕ, ◌/◌, ◌%◌, ◌<◌, ◌≡◌, ◌≢◌, refl, List, [], ◌∷◌, ◌++◌, some, arith, Every, Every-append,
}
use learncc.GateServer.Url.{
  to_hex, from_hex, is_plain, encode_char, url_encode, hex_pair, url_decode, push,
}

abbrev pub IsByte : ℕ → Type 0
IsByte c = c < 256

from_hex-to_hex : (x : ℕ) → x < 16 → from_hex (to_hex x) ≡ some x
unfolding from_hex to_hex
from_hex-to_hex x h = ground arith

hex_pair-to_hex : (c : ℕ) → IsByte c → hex_pair (to_hex (c / 16)) (to_hex (c % 16)) ≡ some c
unfolding hex_pair
hex_pair-to_hex c h = ground (arith, from_hex-to_hex (c / 16), from_hex-to_hex (c % 16))

-- A character but `+` and `%` stands for itself.
decode_other :
    (c : ℕ) (s : List ℕ) → c ≢ b'+' → c ≢ b'%' → url_decode (c ∷ s) ≡ push (some c) (url_decode s)
unfolding url_decode
decode_other c [] n m = ground arith
decode_other c (h ∷ []) n m = ground arith
decode_other c (h ∷ l ∷ s) n m = ground arith

decode_space : (s : List ℕ) → url_decode (b'+' ∷ s) ≡ push (some b' ') (url_decode s)
unfolding url_decode
decode_space [] = refl
decode_space (h ∷ []) = refl
decode_space (h ∷ l ∷ s) = refl

decode_hex :
    (h l : ℕ) (s : List ℕ) → url_decode (b'%' ∷ h ∷ l ∷ s) ≡ push (hex_pair h l) (url_decode s)
unfolding url_decode
decode_hex h l s = refl

-- What is appended for one character is read back as that character.
decode-encode_char :
    (c : ℕ) (s : List ℕ) → IsByte c → url_decode (encode_char c ++ s) ≡ push (some c) (url_decode s)
unfolding encode_char is_plain
decode-encode_char c s h = ground (
  arith,
  decode_other c s,
  decode_space s,
  decode_hex (to_hex (c / 16)) (to_hex (c % 16)) s,
  hex_pair-to_hex c h,
)

-- `url_decode` gives back every string of bytes that `url_encode` wrote, and meets no assertion.
pub url_decode-url_encode : (s : List ℕ) → Every IsByte s → url_decode (url_encode s) ≡ some s
unfolding url_encode url_decode
url_decode-url_encode [] h = refl
url_decode-url_encode (c ∷ s) h =
    rw (decode-encode_char c (url_encode s) h.0, url_decode-url_encode s h.1)

-- The characters that `url_encode` writes: none of them has a meaning in a query.
abbrev pub IsUrlChar : ℕ → Type 0
IsUrlChar c = (c ≢ b'&') × (c ≢ b'=') × (c ≢ b'?') × (c < 256)

to_hex-IsUrlChar : (x : ℕ) → x < 16 → IsUrlChar (to_hex x)
unfolding to_hex
to_hex-IsUrlChar x h = ground arith

encode_char-IsUrlChar : (c : ℕ) → IsByte c → Every IsUrlChar (encode_char c)
unfolding encode_char is_plain
encode_char-IsUrlChar c h = ground (arith, to_hex-IsUrlChar (c / 16), to_hex-IsUrlChar (c % 16))

pub url_encode-IsUrlChar : (s : List ℕ) → Every IsByte s → Every IsUrlChar (url_encode s)
unfolding url_encode
url_encode-IsUrlChar [] h = tt
url_encode-IsUrlChar (c ∷ s) h =
    Every-append IsUrlChar (encode_char c) (url_encode s) (encode_char-IsUrlChar c h.0)
      (url_encode-IsUrlChar s h.1)
