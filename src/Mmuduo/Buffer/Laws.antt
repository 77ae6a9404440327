-- ===== src/Mmuduo/Buffer/Laws.antt =====
-- The buffer as a queue of bytes: the invariant of its indices, and what each operation does to
-- the unread bytes.
use learncc.Prelude.{
  [], refl, ap, ◌∷◌, zero, suc, take, drop, ℕ, ◌+◌, ◌-◌, ◌≤◌, ◌<◌, ◌^◌, ◌≡◌, List, length, slice,
  arith, ◌++◌, length-overwrite, length-resize, take-drop-resize, take-drop-overwrite,
  take-overwrite_extend, length-take, take-take, take-append-drop, drop_all, length-drop, drop-drop,
  take-drop_comm,
}
use learncc.Mmuduo.Buffer.{
  Buffer, prepend, readable_bytes, writable_bytes, retrieve, retrieve_all, retrieve_as_string, fill,
  make_space, ensure_waitable_bytes, append,
}

-- The indices are in order, the reserved bytes stay free, and the array fits a vector.
pub record IsValid (b : Buffer) : Type 0 where
  pub reserved : prepend ≤ b.read
  pub ordered : b.read ≤ b.write
  pub stored : b.write ≤ length b.buf
  pub small : length b.buf < 2 ^ 63

-- The unread bytes.
abbrev pub contents : Buffer → List ℕ
contents b = slice b.read b.write b.buf

pub readable_eq : {b : Buffer} → IsValid b → readable_bytes b ≡ b.write - b.read
readable_eq v = omega arith

pub writable_eq : {b : Buffer} → IsValid b → writable_bytes b ≡ length b.buf - b.write
writable_eq v = omega arith

pub length-contents : {b : Buffer} → IsValid b → length (contents b) ≡ b.write - b.read
length-contents {b} v =
    omega (arith, length-take (b.write - b.read) (drop b.read b.buf), length-drop b.read b.buf)

-- Dropping the unread bytes through the read index.
slice-drop : (i j k : ℕ) (xs : List ℕ) → i + k ≤ j → slice (i + k) j xs ≡ drop k (slice i j xs)
slice-drop i j k xs h =
    let e : k + (j - (i + k)) ≡ j - i = omega arith in
    rw (← drop-drop k i xs, take-drop_comm k (j - (i + k)) (drop i xs), e)

-- What is left in the buffer after `retrieve` is what a queue holds after `len` bytes are taken.
pub contents-retrieve :
    {b : Buffer} (len : ℕ)
    → IsValid b
    → (contents (retrieve b len) ≡ drop len (contents b)) × IsValid (retrieve b len)
unfolding retrieve retrieve_all
contents-retrieve {b} len v =
    ground
      (arith, slice-drop b.read b.write len b.buf, length-contents v, drop_all len (contents b))

-- What `ensure_waitable_bytes` guarantees: room for `len` bytes, and the same unread bytes.
pub record Spaced (b b' : Buffer) (len : ℕ) : Type 0 where
  pub valid : IsValid b'
  pub room : len ≤ writable_bytes b'
  pub same : contents b' ≡ contents b

ensure_waitable_bytes-Spaced :
    {b : Buffer} (len : ℕ)
    → IsValid b
    → b.write + len + 8 < 2 ^ 63
    → Spaced b (ensure_waitable_bytes b len) len
unfolding ensure_waitable_bytes make_space
ensure_waitable_bytes-Spaced {b} len v h = ground (
  arith,
  length-resize (b.write + len) 0 b.buf,
  length-overwrite 8 (contents b) b.buf,
  take-drop-resize b.read (b.write - b.read) (b.write + len) 0 b.buf,
  take-drop-overwrite 8 (contents b) b.buf,
  length-contents v,
)

pub contents-fill :
    (b : Buffer) (xs : List ℕ)
    → IsValid b
    → length xs ≤ writable_bytes b
    → (contents (fill b xs) ≡ contents b ++ xs) × IsValid (fill b xs)
unfolding fill
contents-fill b xs v h =
    let e : b.read + (b.write - b.read) ≡ b.write = omega arith in
    ground (
      arith,
      take-overwrite_extend b.read (b.write - b.read) (b.write + length xs - b.read) xs b.buf,
      length-overwrite b.write xs b.buf,
      e,
    )

-- Appended bytes stand behind the unread ones
pub contents-append :
    {b : Buffer} (xs : List ℕ)
    → IsValid b
    → b.write + length xs + 8 < 2 ^ 63
    → (contents (append b xs) ≡ contents b ++ xs) × IsValid (append b xs)
unfolding append
contents-append {b} xs v h = ground (
  arith,
  ensure_waitable_bytes-Spaced (length xs) v h,
  contents-fill (ensure_waitable_bytes b (length xs)) xs,
)

take-front : {A : Type 0} (n : ℕ) (xs ys : List A) → n ≤ length xs → take n (xs ++ ys) ≡ take n xs
take-front zero xs ys h = refl
take-front (suc n) [] ys h = absurd (omega (arith, h))
take-front (suc n) (x ∷ xs) ys h = ap (λ zs. x ∷ zs) (take-front n xs ys (omega (arith, h)))

within :
    {b : Buffer} (beyond : List ℕ) (len : ℕ)
    → IsValid b
    → len ≤ readable_bytes b
    → take len (drop b.read b.buf ++ beyond) ≡ take len (drop b.read b.buf)
within {b} beyond len v h =
    take-front len (drop b.read b.buf) beyond
      (ground (arith, length-drop b.read b.buf, v.stored, v.ordered))

-- Taking bytes out as a string gives the oldest unread ones and leaves the others.
pub retrieve_as_string_lem :
    {b : Buffer} (beyond : List ℕ) (len : ℕ)
    → IsValid b
    → len ≤ readable_bytes b
    → (retrieve_as_string beyond b len).0 ++ contents (retrieve_as_string beyond b len).1
      ≡ contents b
unfolding retrieve_as_string
retrieve_as_string_lem {b} beyond len v h = ground (
  arith,
  within beyond len v h,
  contents-retrieve len v,
  take-append-drop len (contents b),
  take-take len (b.write - b.read) (drop b.read b.buf),
)

pub length-retrieve_as_string :
    {b : Buffer} (beyond : List ℕ) (len : ℕ)
    → IsValid b
    → len ≤ readable_bytes b
    → length (retrieve_as_string beyond b len).0 ≡ len
unfolding retrieve_as_string
length-retrieve_as_string {b} beyond len v h = ground (
  arith,
  within beyond len v h,
  length-take len (drop b.read b.buf),
  length-drop b.read b.buf,
  v.stored,
  v.ordered,
)

pub retrieve_as_string-IsValid :
    {b : Buffer} (beyond : List ℕ) (len : ℕ)
    → IsValid b
    → IsValid (retrieve_as_string beyond b len).1
unfolding retrieve_as_string
retrieve_as_string-IsValid {b} beyond len v = (contents-retrieve len v).1

-- Also if more bytes are asked for than are unread.
pub contents-retrieve_as_string :
    {b : Buffer} (beyond : List ℕ) (len : ℕ)
    → IsValid b
    → contents (retrieve_as_string beyond b len).1 ≡ drop len (contents b)
unfolding retrieve_as_string
contents-retrieve_as_string {b} beyond len v = (contents-retrieve len v).0
