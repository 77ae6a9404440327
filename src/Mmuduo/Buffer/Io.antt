-- ===== src/Mmuduo/Buffer/Io.antt =====
-- `read_fd` and `write_fd`: the bytes of a scattered read all arrive, in order.
use learncc.Prelude.{
  ℕ, ◌+◌, ◌≤◌, ◌<◌, ◌^◌, ◌≡◌, List, ◌++◌, length, take, drop, arith, take-append-drop, length-take,
  length-drop, append_assoc,
}
use learncc.Mmuduo.Buffer.{
  Buffer, got, bytes, offered, writable_bytes, read_fd, fill, Written, wrote, write_fd, retrieve,
}
use learncc.Mmuduo.Buffer.Laws.{
  IsValid, contents, contents-fill, contents-append, contents-retrieve,
}

-- A full first area leaves the write index at the end of the array.
write-fill_full :
    {b : Buffer} (xs : List ℕ)
    → IsValid b
    → writable_bytes b < length xs
    → (fill b (take (writable_bytes b) xs)).write ≡ length b.buf
unfolding fill
write-fill_full {b} xs v h = omega (arith, length-take (writable_bytes b) xs)

-- Whatever `readv` put into the two areas it was offered stands behind the unread bytes, in order,
-- with its length as the result, also where it overflows into the area on the stack.
pub contents-read_fd :
    {b : Buffer} (xs : List ℕ)
    → IsValid b
    → length xs ≤ offered b
    → length b.buf + length xs + 8 < 2 ^ 63
    → ((read_fd b (got xs)).0 ≡ bytes (length xs))
      × (contents (read_fd b (got xs)).1 ≡ contents b ++ xs)
      × IsValid (read_fd b (got xs)).1
unfolding read_fd
contents-read_fd {b} xs v o h = ground (
  arith,
  write-fill_full xs v,
  length-take (writable_bytes b) xs,
  length-drop (writable_bytes b) xs,
  take-append-drop (writable_bytes b) xs,
  contents-fill b xs v,
  contents-fill b (take (writable_bytes b) xs) v,
  contents-append {b = fill b (take (writable_bytes b) xs)} (drop (writable_bytes b) xs),
  append_assoc (contents b) (take (writable_bytes b) xs) (drop (writable_bytes b) xs),
)

-- `write` is offered exactly the unread bytes: the bytes that it takes are the oldest ones, and
-- `retrieve` of that many leaves the ones that it did not take.
pub write_fd-retrieve :
    {b : Buffer} (n : ℕ) (sys : List ℕ → Written)
    → IsValid b
    → sys (contents b) ≡ wrote n
    → n ≤ length (contents b)
    → ((write_fd b sys).0 ≡ bytes n) × ((write_fd b sys).1 ++ contents (retrieve b n) ≡ contents b)
unfolding write_fd
write_fd-retrieve {b} n sys v e h =
    ground (arith, e, contents-retrieve n v, take-append-drop n (contents b))
