-- ===== src/Libgen/Buffer/Resize.antt =====
-- Replacing and resizing what a buffer holds.
use ozonebase.Prelude.{
  ℕ, ◌+◌, ◌-◌, ◌^◌, ◌≤◌, ◌<◌, ◌≡◌, refl, ap, ◌∙◌, false, List, ◌++◌, arith, if◌then◌else◌, ltb,
  Bool-cases, length, take, drop, length-append, length-replicate, length-drop, take-append_self,
  take_all, replicate, take-append, drop-length-append, drop-replicate, subst, inl, inr,
}
use ozonebase.Libgen.Outcome.{ok}
use ozonebase.Libgen.Buffer.{
  Buffer, contents, zeroed, assign, copy_of, fill_to, set_size, reserve, fill, write_at,
}
use ozonebase.Libgen.Buffer.Room.{IsValid, compacted, sub_size-id, write_at-ok, expand-cases}
use ozonebase.Libgen.Buffer.Append.{Holds}

-- The buffer with its storage overwritten from the start.
abbrev rewritten : Buffer → List ℕ → Buffer
rewritten b bytes = record b {
  storage = bytes ++ drop (length bytes) b.storage;
  size = length bytes;
  head = 0;
  tail = length bytes;
}

rewritten-Holds :
    (b : Buffer) (bytes : List ℕ)
    → IsValid b
    → b.adopted ≡ false
    → length bytes ≤ b.allocation
    → Holds (rewritten b bytes) bytes
rewritten-Holds b bytes v a h = record {
  valid = record {
    stored = omega (
      arith,
      length-append bytes (drop (length bytes) b.storage),
      length-drop (length bytes) b.storage,
      v.stored,
    );
    room = omega arith;
    ends = omega arith;
    small = v.small;
  };
  shows = take-append_self (length bytes) bytes (drop (length bytes) b.storage) refl;
  owned = a;
}

pub copy_of-Holds : (bytes : List ℕ) → length bytes < 2 ^ 31 → Holds (copy_of bytes) bytes
unfolding copy_of
copy_of-Holds bytes h = record {
  valid = record { stored = refl; room = omega arith; ends = omega arith; small = h };
  shows = take_all (length bytes) bytes (omega arith);
  owned = refl;
}

write_at-zero :
    (block bytes : List ℕ)
    → length bytes ≤ length block
    → write_at block 0 bytes ≡ ok (bytes ++ drop (length bytes) block)
write_at-zero block bytes h =
    write_at-ok block 0 bytes (omega arith) ∙ ap (λ k. ok (bytes ++ drop k block)) (omega arith)

allocation-copy_of :
    (b : Buffer) (bytes : List ℕ) → (copy_of bytes).allocation ≤ b.allocation + length bytes
unfolding copy_of
allocation-copy_of b bytes = omega arith

-- `assign` leaves exactly the bytes given, whether they fit the allocation or not, in an
-- allocation of no more than the two sizes together.
pub assign_lem :
    (b : Buffer) (bytes : List ℕ)
    → IsValid b
    → b.adopted ≡ false
    → length bytes < 2 ^ 31
    → (b' : Buffer) × (assign b bytes ≡ ok (length bytes, b'))
      × Holds b' bytes
      × (b'.allocation ≤ b.allocation + length bytes)
unfolding assign
assign_lem b bytes v a s = elim (Bool-cases (ltb b.allocation (length bytes))) [
  | inl grown ↦ (copy_of bytes, ground arith, copy_of-Holds bytes s, allocation-copy_of b bytes)
  | inr fits ↦ (
    rewritten b bytes,
    ground (arith, write_at-zero b.storage bytes, v.stored),
    rewritten-Holds b bytes v a (ground arith),
    omega arith,
  )
]

-- `fill( value, size )` leaves `n` times the value.
pub fill_to_lem :
    (b : Buffer) (value n : ℕ)
    → IsValid b
    → b.adopted ≡ false
    → n < 2 ^ 31
    → (b' : Buffer) × (fill_to b value n ≡ ok (n, b')) × Holds b' (replicate n value)
unfolding fill_to
fill_to_lem b value n v a s = elim (Bool-cases (ltb b.allocation n)) [
  | inl grown ↦ (
    copy_of (replicate n value),
    ground arith,
    copy_of-Holds (replicate n value) (omega (arith, length-replicate n value)),
  )
  | inr fits ↦ (
    record b {
      storage = replicate n value ++ drop (length (replicate n value)) b.storage;
      size = n;
      head = 0;
      tail = n;
    },
    ground (arith, write_at-zero b.storage (replicate n value), length-replicate n value, v.stored),
    subst
        (λ k.
          Holds
            (record b {
              storage = replicate n value ++ drop (length (replicate n value)) b.storage;
              size = k;
              head = 0;
              tail = k;
            })
            (replicate n value))
        (length-replicate n value)
        (rewritten-Holds b (replicate n value) v a (ground (arith, length-replicate n value))),
  )
]

-- fill(value) writes from the start of the storage and not from the head: of a valid buffer
-- whose head has moved on by no more than its size, the last bytes, as many as the head has
-- moved, stay as they were.
pub fill_lem :
    (b : Buffer) (value : ℕ)
    → IsValid b
    → b.head ≤ b.size
    → (b' : Buffer) × (fill b value ≡ ok b')
      × (contents b' ≡ replicate (b.size - b.head) value ++ take b.head (drop b.size b.storage))
unfolding fill
fill_lem b value v h = (
  record b { storage = replicate b.size value ++ rest },
  ground (
    arith,
    write_at-zero b.storage (replicate b.size value),
    length-replicate b.size value,
    v.stored,
    v.room,
  ),
  ap (take b.size) (
        drop-length-append b.head (replicate b.size value) rest
          (omega (arith, length-replicate b.size value))
        ∙ ap (λ xs. xs ++ rest) (drop-replicate b.head b.size value))
      ∙ (take-append b.size b.head (replicate (b.size - b.head) value) rest
            (omega (arith, length-replicate (b.size - b.head) value))
          ∙ ap (λ k. replicate (b.size - b.head) value ++ take b.head (drop k b.storage))
              (length-replicate b.size value)),
)
  where
    rest : List ℕ
    rest = drop (length (replicate b.size value)) b.storage

-- The size that `size( n )` settles on.
abbrev pub resized : Buffer → ℕ → ℕ
resized b n =
    if ltb b.allocation n
    then b.allocation + (n - b.size)
    else if ltb n b.allocation
    then n
    else b.size

-- size(n) on a valid buffer that owns its storage, while the allocation and n are below 2^31
-- together: a smaller size than the allocation is what was asked for; the same size as the
-- allocation leaves the size as it was; for a larger one the result is too large by the bytes
-- that the buffer had to spare.
pub set_size_lem :
    (b : Buffer) (n : ℕ)
    → IsValid b
    → b.adopted ≡ false
    → b.allocation + n < 2 ^ 31
    → (b' : Buffer) × (set_size b n ≡ ok (resized b n, b')) × (b'.size ≡ resized b n)
unfolding set_size reserve
set_size_lem b n v a s = elim (Bool-cases (ltb b.allocation n)) [
  | inl large ↦
      let total : ℕ = b.allocation + (n - b.size) in
      (
        record b {
          storage = (compacted b total).storage;
          allocation = total;
          head = 0;
          size = total;
          tail = total;
        },
        ground (arith, expand-cases b (n - b.size) v a, sub_size-id n b.size, v.room),
        ground arith,
      )
  | inr small ↦
      (record b { size = resized b n; tail = b.head + resized b n }, ground arith, ground arith)
]

-- On a buffer that owns its storage, a size below the allocation that passes it when counted
-- from the head is taken, and the tail is then outside the allocation.
pub set_size-overruns :
    (b : Buffer) (n : ℕ)
    → b.adopted ≡ false
    → n < b.allocation
    → b.allocation < b.head + n
    → (b' : Buffer) × (set_size b n ≡ ok (n, b')) × (b'.allocation < b'.tail)
unfolding set_size
set_size-overruns b n a l h = (record b { size = n; tail = b.head + n }, ground arith, h)

-- A new buffer of zeros is valid.
pub zeroed-IsValid : (n : ℕ) → n < 2 ^ 31 → IsValid (zeroed n)
unfolding zeroed
zeroed-IsValid n h = record {
  stored = length-replicate n 0;
  room = omega arith;
  ends = omega arith;
  small = h;
}
