-- ===== src/Mmuduo/Buffer.antt =====
-- inc/mmuduo/buffer.h and src/mmuduo/buffer.cc: the byte buffer of a connection, an array with a
-- read index and a write index. `readv` and `write` are arguments: what the system call returned.
pub mod Laws
pub mod Io
mod Tests
use learncc.Prelude.{
  ◌++◌, ℕ, ◌+◌, ◌-◌, Bool, List, [], length, slice, overwrite, resize, replicate, take, drop, ltb,
  leb, add_size, sub_size, if◌then◌else◌,
}

abbrev pub prepend : ℕ
prepend = 8

abbrev pub initial_size : ℕ
initial_size = 1024

pub record Buffer : Type 0 where
  pub buf : List ℕ
  pub read : ℕ
  pub write : ℕ

-- The constructor: `initsize` zero bytes behind the reserved ones.
unfoldable pub new : ℕ → Buffer
new initsize = record {
  buf = replicate (add_size prepend initsize) 0;
  read = prepend;
  write = prepend;
}

abbrev pub readable_bytes : Buffer → ℕ
readable_bytes b = sub_size b.write b.read

abbrev pub writable_bytes : Buffer → ℕ
writable_bytes b = sub_size (length b.buf) b.write

abbrev pub prependable_bytes : Buffer → ℕ
prependable_bytes b = b.read

pub retrieve_all : Buffer → Buffer
retrieve_all b = record b { read = prepend; write = prepend }

pub retrieve : Buffer → ℕ → Buffer
unfolding retrieve_all
retrieve b len =
    if ltb len (readable_bytes b) then record b { read = add_size b.read len } else retrieve_all b

-- `std::string res(peek(), len)`: the `len` bytes from the read index on, which does not stop at the write
-- index, nor at the end of the array: `beyond` is what the memory has behind it.
pub retrieve_as_string : List ℕ → Buffer → ℕ → List ℕ × Buffer
retrieve_as_string beyond b len = (take len (drop b.read b.buf ++ beyond), retrieve b len)

pub retrieve_all_asstring : List ℕ → Buffer → List ℕ × Buffer
unfolding retrieve_as_string
retrieve_all_asstring beyond b = retrieve_as_string beyond b (readable_bytes b)

-- Grows the array, or moves the unread bytes to its front.
pub make_space : Buffer → ℕ → Buffer
make_space b len =
    if ltb (add_size (writable_bytes b) (prependable_bytes b)) (add_size len prepend)
    then record b { buf = resize (add_size b.write len) 0 b.buf }
    else record b {
      buf = overwrite prepend (slice b.read b.write b.buf) b.buf;
      read = prepend;
      write = add_size prepend (readable_bytes b);
    }

pub ensure_waitable_bytes : Buffer → ℕ → Buffer
ensure_waitable_bytes b len = if ltb (writable_bytes b) len then make_space b len else b

-- The copy to `begin_write()` with the step of the write index.
pub fill : Buffer → List ℕ → Buffer
fill b bytes = record b {
  buf = overwrite b.write bytes b.buf;
  write = add_size b.write (length bytes);
}

pub append : Buffer → List ℕ → Buffer
append b bytes = fill (ensure_waitable_bytes b (length bytes)) bytes

-- What `readv` returned: an error number, or the bytes it put into the two areas, in order.
pub data Received : Type 0 where
  failed : ℕ → Received
  got : List ℕ → Received

abbrev pub extra_size : ℕ
extra_size = 65536

-- The number of bytes that the areas handed to `readv` hold.
abbrev pub offered : Buffer → ℕ
offered b =
    if ltb (writable_bytes b) extra_size
    then add_size (writable_bytes b) extra_size
    else writable_bytes b

-- The result of a call: the number of bytes, or the error number that goes to `*saveerrno`.
pub data Count : Type 0 where
  bytes : ℕ → Count
  errno : ℕ → Count

-- The first area is the free end of the array and the second one lies on the stack.
pub read_fd : Buffer → Received → Count × Buffer
read_fd b (failed e) = (errno e, b)
read_fd b (got xs) =
    let writable = writable_bytes b in
    if leb (length xs) writable then (bytes (length xs), fill b xs) else (
      bytes (length xs),
      append (record (fill b (take writable xs)) { write = length b.buf }) (drop writable xs),
    )

-- What `write` returned: an error number or the number of bytes taken.
pub data Written : Type 0 where
  refused : ℕ → Written
  wrote : ℕ → Written

-- `write` is offered the unread bytes; the buffer stays as it is.
pub write_fd : Buffer → (List ℕ → Written) → Count × List ℕ
write_fd b sys =
    let unread = take (readable_bytes b) (drop b.read b.buf) in
    elim (sys unread) [ refused e ↦ (errno e, []) | wrote n ↦ (bytes n, take n unread) ]
