-- ===== src/Mmuduo/Buffer/Tests.antt =====
-- Runs of the buffer, and the theorems at a small buffer that has to move its bytes.
use learncc.Prelude.{ℕ, ◌≡◌, refl, List, [], ◌∷◌, length, arith}
use learncc.Mmuduo.Buffer.{
  Buffer, append, ensure_waitable_bytes, make_space, fill, read_fd, got, bytes, wrote, Written,
}
use learncc.Mmuduo.Buffer.Laws.{IsValid, contents}
use learncc.Mmuduo.Buffer.Io.{contents-read_fd}

-- Two unread bytes, 5 and 6, behind two that are read.
abbrev used : Buffer
used = record { buf = 0 ∷ 0 ∷ 0 ∷ 0 ∷ 0 ∷ 0 ∷ 0 ∷ 0 ∷ 3 ∷ 4 ∷ 5 ∷ 6 ∷ []; read = 10; write = 12 }

used-IsValid : IsValid used
used-IsValid = omega arith

moved : (append used (7 ∷ [])).read ≡ 8
unfolding append ensure_waitable_bytes make_space fill
moved = refl

grown : length (append used (7 ∷ 8 ∷ 9 ∷ [])).buf ≡ 15
unfolding append ensure_waitable_bytes make_space fill
grown = refl

-- The array is full, so all that arrives lies on the stack first.
contents-read_fd_example :
    ((read_fd used (got (7 ∷ 8 ∷ []))).0 ≡ bytes 2)
    × (contents (read_fd used (got (7 ∷ 8 ∷ []))).1 ≡ 5 ∷ 6 ∷ 7 ∷ 8 ∷ [])
    × IsValid (read_fd used (got (7 ∷ 8 ∷ []))).1
contents-read_fd_example = contents-read_fd (7 ∷ 8 ∷ []) used-IsValid (omega arith) (omega arith)

-- The socket takes one byte.
abbrev take_one : List ℕ → Written
take_one xs = wrote 1
