-- ===== src/Libgen/Buffer.antt =====
-- server/src/libgen/libgenBuffer.h, the class template Buffer at the one-byte element type of
-- ByteBuffer. A pointer into `mStorage` is its offset; the storage is the list of its bytes.
pub mod Room
pub mod Append
pub mod Trim
pub mod Resize
pub mod Sequence
pub mod Fresh
use ozonebase.Prelude.{
  ℕ, ◌+◌, ◌-◌, ◌%◌, ◌^◌, Bool, true, false, not, List, [], ◌++◌, ltb, leb, ◌==◌, if◌then◌else◌,
  length, take, drop, replicate, get_or,
}
use ozonebase.Libgen.Outcome.{Outcome, ok, panic, fault, ◌>>=◌}

pub record Buffer : Type 0 where
  pub storage : List ℕ
  pub allocation : ℕ
  pub size : ℕ
  pub head : ℕ
  pub tail : ℕ
  pub adopted : Bool

-- A size_t converted to int and back: the low 32 bits, sign-extended.
unfoldable pub int_of : ℕ → ℕ
int_of x = if ltb (x % 2 ^ 32) (2 ^ 31) then x % 2 ^ 32 else 2 ^ 64 - 2 ^ 32 + x % 2 ^ 32

-- size_t subtraction.
abbrev pub sub_size : ℕ → ℕ → ℕ
sub_size a b = (2 ^ 64 + a - b) % 2 ^ 64

-- memcpy of `bytes` to offset `at` of a block.
unfoldable pub write_at : List ℕ → ℕ → List ℕ → Outcome (List ℕ)
write_at block at bytes =
    if leb (at + length bytes) (length block)
    then ok (take at block ++ (bytes ++ drop (at + length bytes) block))
    else fault

-- `n` bytes of a block from offset `at`.
unfoldable pub read_at : List ℕ → ℕ → ℕ → Outcome (List ℕ)
read_at block at n = if leb (at + n) (length block) then ok (take n (drop at block)) else fault

-- The bytes between head and head + size, which the users of a buffer see.
abbrev pub contents : Buffer → List ℕ
contents b = take b.size (drop b.head b.storage)

pub empty_buffer : Buffer
empty_buffer = record {
  storage = [];
  allocation = 0;
  size = 0;
  head = 0;
  tail = 0;
  adopted = false;
}

unfoldable pub zeroed : ℕ → Buffer
zeroed n = record {
  storage = replicate n 0;
  allocation = n;
  size = n;
  head = 0;
  tail = n;
  adopted = false;
}

-- A new buffer with a copy of the bytes.
pub copy_of : List ℕ → Buffer
copy_of bytes = record {
  storage = bytes;
  allocation = length bytes;
  size = length bytes;
  head = 0;
  tail = length bytes;
  adopted = false;
}

-- The copy constructor; a copy of an adopted buffer shares its storage.
pub clone : Buffer → Buffer
clone b = if b.adopted then record b { allocation = b.size; tail = b.head + b.size } else record {
  storage = contents b;
  allocation = b.size;
  size = b.size;
  head = 0;
  tail = b.size;
  adopted = false;
}

pub clear : Buffer → Buffer
clear b = record b { size = 0; head = 0; tail = 0; adopted = false }

-- `level` is a bool there, so that the branch for level 2 is never taken.
pub tidy : Buffer → Bool → Outcome Buffer
tidy b level =
    if b.head == 0
    then ok b
    else if b.size == 0
    then ok (record b { head = 0; tail = 0 })
    else if not level
    then ok b
    else if b.adopted
    then ok b
    else if ltb b.size b.head
    then (do
      bytes ← read_at b.storage b.head b.size
      moved ← write_at b.storage 0 bytes
      ok (record b { storage = moved; head = 0; tail = b.size }))
    else ok b

-- Trim from the front; the result is the number of bytes that went.
pub consume : Buffer → ℕ → Outcome (ℕ × Buffer)
consume b count =
    let n = if ltb b.size count then b.size else count in
    (do b' ← tidy (record b { head = b.head + n; size = b.size - n }) false; ok (n, b'))

-- Trim from the end.
pub shrink : Buffer → ℕ → Outcome (ℕ × Buffer)
shrink b count =
    let n = if ltb b.size count then b.size else count in
    let tail' = if ltb (b.head + (b.size - n)) b.tail then b.head + (b.size - n) else b.tail in
    (do b' ← tidy (record b { size = b.size - n; tail = tail' }) false; ok (n, b'))

-- The bytes that the returned pointer shows, with the buffer that is left.
pub extract : Buffer → ℕ → Outcome (List ℕ × Buffer)
extract b count =
    let n = if ltb b.size count then b.size else count in
    (do
      bytes ← read_at b.storage b.head n
      b' ← tidy (record b { head = b.head + n; size = b.size - n }) false
      ok (bytes, b'))

-- Make room for `count` more bytes behind the tail.
pub expand : Buffer → ℕ → Outcome Buffer
expand b count =
    let spare : ℕ = int_of (sub_size b.allocation b.size) in
    let tail_space : ℕ = int_of (sub_size spare (int_of b.head)) in
    let width : ℕ = int_of (sub_size b.tail b.head) in
    if b.adopted
    then panic
    else if ltb count spare
    then (if ltb tail_space count
        then (do
          bytes ← read_at b.storage b.head b.size
          ok (record b {
            storage = bytes ++ replicate (b.allocation - b.size) 0;
            head = 0;
            tail = width;
          }))
        else ok b)
    else (do
      bytes ← read_at b.storage b.head b.size
      ok (record b {
        storage = bytes ++ replicate (b.allocation + count - b.size) 0;
        allocation = b.allocation + count;
        head = 0;
        tail = width;
      }))

pub reserve : Buffer → ℕ → Outcome (ℕ × Buffer)
reserve b n =
    if b.adopted
    then panic
    else if ltb b.size n
    then (do b' ← expand b (sub_size n b.size); ok (b'.size, b'))
    else ok (b.size, b)

-- The setter `size( size_t )`.
pub set_size : Buffer → ℕ → Outcome (ℕ × Buffer)
set_size b n =
    if b.adopted
    then panic
    else (do b' ← sized; ok (b'.size, record b' { tail = b'.head + b'.size }))
  where
    sized : Outcome Buffer
    sized =
        if ltb b.allocation n
        then (do r ← reserve b n; ok (record (r.1) { size = r.1.allocation }))
        else if ltb n b.allocation
        then ok (record b { size = n })
        else ok b

pub erase : Buffer → Buffer
erase b = record b { storage = replicate b.allocation 0 }

-- `fill( value )`: memset from the start of the storage, not from the head.
pub fill : Buffer → ℕ → Outcome Buffer
fill b value = do
  filled ← write_at b.storage 0 (replicate b.size value)
  ok (record b { storage = filled })

-- `fill( value, size )`.
pub fill_to : Buffer → ℕ → ℕ → Outcome (ℕ × Buffer)
fill_to b value n =
    if ltb b.allocation n
    then (if b.adopted then panic else ok (n, copy_of (replicate n value)))
    else (do
      filled ← write_at b.storage 0 (replicate n value)
      ok (n, record b { storage = filled; size = n; head = 0; tail = n }))

pub assign : Buffer → List ℕ → Outcome (ℕ × Buffer)
assign b bytes =
    if ltb b.allocation (length bytes)
    then (if b.adopted then panic else ok (length bytes, copy_of bytes))
    else (do
      stored ← write_at b.storage 0 bytes
      ok (
        length bytes,
        record b { storage = stored; size = length bytes; head = 0; tail = length bytes },
      ))

-- Take over storage that the caller keeps owning.
pub adopt : List ℕ → Buffer
adopt bytes = record (copy_of bytes) { adopted = true }

pub append : Buffer → List ℕ → Outcome (ℕ × Buffer)
append b bytes = if b.adopted then panic else (do
  b' ← expand b (length bytes)
  stored ← write_at b'.storage b'.tail bytes
  ok (
    b'.size + length bytes,
    record b' { storage = stored; tail = b'.tail + length bytes; size = b'.size + length bytes },
  ))

-- Add bytes in front.
pub insert : Buffer → List ℕ → Outcome (ℕ × Buffer)
insert b bytes = if b.adopted then panic else (do
  b' ← expand b (length bytes)
  old ← read_at b'.storage b'.head b'.size
  moved ← write_at b'.storage (b'.head + length bytes) old
  stored ← write_at moved b'.head bytes
  ok (
    b'.size + length bytes,
    record b' { storage = stored; tail = b'.tail + length bytes; size = b'.size + length bytes },
  ))

-- `copy`: what it writes to `dest`, which is not null; size 0 stands for all of the buffer.
pub copy : Buffer → ℕ → Outcome (List ℕ)
copy b n = read_at b.storage b.head (if n == 0 then b.size else n)

-- `range( int, size_t )`.
pub range : Buffer → ℕ → ℕ → Outcome Buffer
range b index n =
    if leb b.size index
    then panic
    else if ltb b.tail (b.head + index + n)
    then panic
    else (do bytes ← read_at b.storage (b.head + index) n; ok (copy_of bytes))

-- `buffer--`: the byte at the head, which is then consumed.
pub pop_front : Buffer → Outcome (ℕ × Buffer)
pop_front b = do bytes ← read_at b.storage b.head 1; r ← consume b 1; ok (get_or bytes 0 0, r.1)

-- `buffer++`, `++buffer`: one more byte at the end.
pub increment : Buffer → Outcome (ℕ × Buffer)
increment b = set_size b (b.size + 1)

-- The friend operator `+`.
pub concat : Buffer → Buffer → Outcome Buffer
concat a b = do r ← append (clone a) (contents b); ok (r.1)
