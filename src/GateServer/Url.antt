-- ===== src/GateServer/Url.antt =====
-- The URL coding of src/gateserver/http_conn.cc. A string is the list of its bytes.
pub mod RoundTrip
mod Tests
use learncc.Prelude.{
  ℕ, ◌+◌, ◌-◌, ◌*◌, ◌/◌, ◌%◌, Bool, ◌&&◌, ◌||◌, List, [], ◌∷◌, ◌++◌, Option, none, some, ltb, leb,
  ◌==◌, if◌then◌else◌,
}
use mathlib.Core.Option

pub to_hex : ℕ → ℕ
to_hex x = if ltb 9 x then (x + 55) % 256 else (x + 48) % 256

-- `none` is the failed assertion.
pub from_hex : ℕ → Option ℕ
from_hex x =
    if leb b'A' x && leb x b'Z'
    then some (x - b'A' + 10)
    else if leb b'a' x && leb x b'z'
    then some (x - b'a' + 10)
    else if leb b'0' x && leb x b'9'
    then some (x - b'0')
    else none

-- `isalnum` of the C locale.
pub is_alnum : ℕ → Bool
is_alnum c = leb b'0' c && leb c b'9' || leb b'A' c && leb c b'Z' || leb b'a' c && leb c b'z'

pub is_plain : ℕ → Bool
unfolding is_alnum
is_plain c = is_alnum c || c == b'-' || c == b'_' || c == b'.' || c == b'~'

-- What the loop of `url_encode` appends for one character.
pub encode_char : ℕ → List ℕ
encode_char c =
    if is_plain c
    then c ∷ []
    else if c == b' '
    then b'+' ∷ []
    else b'%' ∷ to_hex (c / 16) ∷ to_hex (c % 16) ∷ []

pub url_encode : List ℕ → List ℕ
url_encode [] = []
url_encode (c ∷ s) = encode_char c ++ url_encode s

-- The byte that two hexadecimal digits stand for, with the narrowing to `char`.
pub hex_pair : ℕ → ℕ → Option ℕ
hex_pair h l = elim (from_hex h) [
  | none ↦ none
  | some high ↦ Option.map (λ low. (high * 16 + low) % 256) (from_hex l)
]

abbrev push : Option ℕ → Option (List ℕ) → Option (List ℕ)
push none r = none
push (some c) r = Option.map (λ s. c ∷ s) r

-- `none` is a failed assertion: a `%` with fewer than two characters behind it, or a character
-- that is no digit.
pub url_decode : List ℕ → Option (List ℕ)
url_decode [] = some []
url_decode (c ∷ []) =
    if c == b'+' then some (b' ' ∷ []) else if c == b'%' then none else some (c ∷ [])
url_decode (c ∷ h ∷ []) =
    let rest = url_decode (h ∷ []) in
    if c == b'+' then push (some b' ') rest else if c == b'%' then none else push (some c) rest
url_decode (c ∷ h ∷ l ∷ s) =
    let next = url_decode (h ∷ l ∷ s) in
    let rest = url_decode s in
    if c == b'+'
    then push (some b' ') next
    else if c == b'%'
    then push (hex_pair h l) rest
    else push (some c) next
