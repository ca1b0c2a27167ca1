-- ===== src/Libgen/Buffer/Room.antt =====
-- The representation invariant of Buffer, and what `expand` makes of it.
use ozonebase.Prelude.{
  ℕ, ◌+◌, ◌-◌, ◌^◌, ◌≤◌, ◌<◌, ◌≡◌, refl, sym, ap, ◌∙◌, inl, inr, false, List, ◌++◌, arith, ltb,
  if◌then◌else◌, Bool-cases, length, take, drop, replicate, length-append, length-take, length-drop,
  length-replicate, take-append_self,
}
use ozonebase.Libgen.Outcome.{ok}
use ozonebase.Libgen.Buffer.{Buffer, int_of, sub_size, read_at, write_at, contents, expand}

-- Buffers of less than 2 ^ 31 bytes, so that the int temporaries of `expand` are exact.
pub record IsValid (b : Buffer) : Type 0 where
  pub stored : length b.storage ≡ b.allocation
  pub room : b.head + b.size ≤ b.allocation
  pub ends : b.tail ≡ b.head + b.size
  pub small : b.allocation < 2 ^ 31

pub int_of-id : (x : ℕ) → x < 2 ^ 31 → int_of x ≡ x
unfolding int_of
int_of-id x h = ground arith

pub sub_size-id : (a b : ℕ) → b ≤ a → a < 2 ^ 31 → sub_size a b ≡ a - b
sub_size-id a b h l = omega arith

pub int_of-sub_size : (a b : ℕ) → b ≤ a → a < 2 ^ 31 → int_of (sub_size a b) ≡ a - b
int_of-sub_size a b h l = ap int_of (sub_size-id a b h l) ∙ int_of-id (a - b) (omega arith)

pub length-contents : {b : Buffer} → IsValid b → length (contents b) ≡ b.size
length-contents {b} v =
    omega (arith, length-take b.size (drop b.head b.storage), length-drop b.head b.storage)

pub read_at-ok :
    (block : List ℕ) (at n : ℕ)
    → at + n ≤ length block
    → read_at block at n ≡ ok (take n (drop at block))
unfolding read_at
read_at-ok block at n h = ground arith

pub write_at-ok :
    (block : List ℕ) (at : ℕ) (bytes : List ℕ)
    → at + length bytes ≤ length block
    → write_at block at bytes ≡ ok (take at block ++ (bytes ++ drop (at + length bytes) block))
unfolding write_at
write_at-ok block at bytes h = ground arith

-- What `expand` leaves: the same bytes, and room for `n` more behind the tail.
pub record Expanded (b : Buffer) (n : ℕ) (b' : Buffer) : Type 0 where
  pub valid : IsValid b'
  pub same : contents b' ≡ contents b
  pub size_kept : b'.size ≡ b.size
  pub spare : b'.tail + n ≤ b'.allocation
  pub bounded : b'.allocation ≤ b.allocation + n
  pub owned : b'.adopted ≡ false

-- The bytes moved to the start of a block of `total` bytes, the rest zero.
abbrev pub compacted : Buffer → ℕ → Buffer
compacted b total = record b {
  storage = contents b ++ replicate (total - b.size) 0;
  allocation = total;
  head = 0;
  tail = b.size;
}

pub compacted-Expanded :
    (b : Buffer) (n total : ℕ)
    → IsValid b
    → b.adopted ≡ false
    → b.size + n ≤ total
    → total ≤ b.allocation + n
    → total < 2 ^ 31
    → Expanded b n (compacted b total)
compacted-Expanded b n total v a h le s = record {
  valid = record {
    stored = omega (
      arith,
      length-append (contents b) (replicate (total - b.size) 0),
      length-contents v,
      length-replicate {A = ℕ} (total - b.size) 0,
    );
    room = omega arith;
    ends = omega arith;
    small = s;
  };
  same = take-append_self b.size (contents b) _ (sym (length-contents v));
  size_kept = refl;
  spare = omega arith;
  bounded = le;
  owned = a;
}

module _ (b : Buffer) (n : ℕ) (v : IsValid b) (a : b.adopted ≡ false) where
  -- `expand` in terms of exact numbers: keep, move to the front, or reallocate.
  pub expand-cases : expand b n ≡ (
      if ltb n (b.allocation - b.size)
      then (if ltb (b.allocation - b.size - b.head) n then ok (compacted b b.allocation) else ok b)
      else ok (compacted b (b.allocation + n)))
  unfolding expand
  expand-cases = ground (
    arith,
    int_of-sub_size b.allocation b.size,
    int_of-id b.head,
    int_of-sub_size (b.allocation - b.size) b.head,
    int_of-sub_size b.tail b.head,
    read_at-ok b.storage b.head b.size,
    v.stored,
    v.room,
    v.ends,
    v.small,
  )

  pub expand-ok : b.allocation + n < 2 ^ 31 → (b' : Buffer) × (expand b n ≡ ok b') × Expanded b n b'
  expand-ok s = elim (Bool-cases (ltb n (b.allocation - b.size))) [
    | inl roomy ↦ elim (Bool-cases (ltb (b.allocation - b.size - b.head) n)) [
      | inl tight ↦ (
        compacted b b.allocation,
        rw (expand-cases, roomy, tight),
        compacted-Expanded b n b.allocation v a (ground (arith, v.room)) (omega arith) v.small,
      )
      | inr fits ↦ (
        b,
        rw (expand-cases, roomy, fits),
        record {
          valid = v;
          same = refl;
          size_kept = refl;
          spare = ground (arith, v.room, v.ends);
          bounded = omega arith;
          owned = a;
        },
      )
    ]
    | inr full ↦ (
      compacted b (b.allocation + n),
      rw (expand-cases, full),
      compacted-Expanded b n (b.allocation + n) v a (omega (arith, v.room)) (omega arith) s,
    )
  ]
