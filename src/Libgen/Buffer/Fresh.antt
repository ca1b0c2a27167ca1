-- ===== src/Libgen/Buffer/Fresh.antt =====
-- server/src/libgen/libgenBuffer.h: buffers that were just made.
use ozonebase.Prelude.{
  ℕ, zero, suc, ◌+◌, ◌^◌, ◌<◌, ◌≡◌, refl, sym, ap, ◌∙◌, false, List, ◌++◌, arith, length, replicate,
  length-replicate, append-nil, drop_all, take_all, take, drop, length-take, length-drop,
  length-append, drop-append_self, take-append_self,
}
use ozonebase.Libgen.Outcome.{ok, ◌>>=◌}
use ozonebase.Libgen.Buffer.{
  Buffer, empty_buffer, zeroed, copy_of, write_at, set_size, reserve, expand, read_at, int_of,
  clear, contents, erase,
}
use ozonebase.Libgen.Buffer.Room.{IsValid, write_at-ok, sub_size-id}
use ozonebase.Libgen.Buffer.Append.{Holds}

-- An empty buffer that is given a size has that many bytes, all zero.
pub set_size-empty_buffer : (n : ℕ) → n < 2 ^ 31 → set_size empty_buffer n ≡ ok (n, zeroed n)
unfolding set_size empty_buffer zeroed reserve expand read_at int_of
set_size-empty_buffer zero h = refl
set_size-empty_buffer (suc n) h = ground (arith, sub_size-id (suc n) 0)

pub empty_buffer-IsValid : IsValid empty_buffer
unfolding empty_buffer
empty_buffer-IsValid = record {
  stored = refl;
  room = omega arith;
  ends = refl;
  small = omega arith;
}

-- All of a block overwritten.
pub write_at_all :
    (block bytes : List ℕ) → length bytes ≡ length block → write_at block 0 bytes ≡ ok bytes
write_at_all block bytes e =
    write_at-ok block 0 bytes (omega arith)
    ∙ ap (λ rest. ok (bytes ++ rest)) (drop_all (0 + length bytes) block (omega arith))
    ∙ ap ok (append-nil bytes)

pub write_at-zeroed :
    (n : ℕ) (bytes : List ℕ)
    → length bytes ≡ n
    → (write_at (zeroed n).storage (zeroed n).head bytes >>= λ stored.
        ok (record (zeroed n) { storage = stored }))
      ≡ ok (copy_of bytes)
unfolding zeroed copy_of
write_at-zeroed n bytes e =
    rw (write_at_all (replicate n 0) bytes (e ∙ sym (length-replicate n 0))) (rw e refl)

pub clear-empty_buffer : clear empty_buffer ≡ empty_buffer
unfolding clear empty_buffer
clear-empty_buffer = refl

pub size-empty_buffer : empty_buffer.size ≡ 0
unfolding empty_buffer
size-empty_buffer = refl

pub size-zeroed : (n : ℕ) → (zeroed n).size ≡ n
unfolding zeroed
size-zeroed n = refl

pub contents-zeroed : (n : ℕ) → contents (zeroed n) ≡ replicate n 0
unfolding zeroed
contents-zeroed n = take_all n (replicate n 0) (omega (arith, length-replicate {A = ℕ} n 0))

pub size-copy_of : (bytes : List ℕ) → (copy_of bytes).size ≡ length bytes
unfolding copy_of
size-copy_of bytes = refl

-- As many other bytes in the place of those that a buffer has.
pub overwrite_lem :
    (b : Buffer) (bytes : List ℕ)
    → IsValid b
    → b.adopted ≡ false
    → length bytes ≡ b.size
    → (stored : List ℕ) × (write_at b.storage b.head bytes ≡ ok stored)
      × Holds (record b { storage = stored }) bytes
overwrite_lem b bytes v o e =
    let front : length (take b.head b.storage) ≡ b.head =
      omega (arith, length-take b.head b.storage, v.stored, v.room) in
    let stored = take b.head b.storage ++ (bytes ++ drop (b.head + length bytes) b.storage) in
    let size : length stored ≡ b.allocation = omega (
      arith,
      length-append (take b.head b.storage) (bytes ++ drop (b.head + length bytes) b.storage),
      length-append bytes (drop (b.head + length bytes) b.storage),
      length-drop (b.head + length bytes) b.storage,
      front,
      v.stored,
      v.room,
    ) in
    (
      stored,
      write_at-ok b.storage b.head bytes (omega (arith, v.stored, v.room)),
      record {
        valid = record { stored = size; room = v.room; ends = v.ends; small = v.small };
        shows =
            ap (take b.size) (
              drop-append_self b.head (take b.head b.storage)
                (bytes ++ drop (b.head + length bytes) b.storage) (sym front))
            ∙ take-append_self b.size bytes (drop (b.head + length bytes) b.storage) (sym e);
        owned = o;
      },
    )

pub adopted-empty_buffer : empty_buffer.adopted ≡ false
unfolding empty_buffer
adopted-empty_buffer = refl

pub erase-IsValid : (b : Buffer) → IsValid b → IsValid (erase b)
unfolding erase
erase-IsValid b v = record {
  stored = length-replicate b.allocation 0;
  room = v.room;
  ends = v.ends;
  small = v.small;
}

pub size-erase : (b : Buffer) → (erase b).size ≡ b.size
unfolding erase
size-erase b = refl

pub adopted-erase : (b : Buffer) → (erase b).adopted ≡ b.adopted
unfolding erase
adopted-erase b = refl
