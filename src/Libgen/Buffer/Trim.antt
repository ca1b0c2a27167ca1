-- ===== src/Libgen/Buffer/Trim.antt =====
-- What the operations that take bytes away do to a buffer, adopted or not.
use ozonebase.Prelude.{
  ℕ, ◌+◌, ◌-◌, ◌≤◌, ◌<◌, ◌≡◌, sym, ap, ◌∙◌, true, false, List, arith, min, if◌then◌else◌, ◌==◌, ltb,
  Bool-cases, take, drop, drop-drop, drop-take, drop-min, take-take, inl, inr,
}
use ozonebase.Libgen.Outcome.{ok}
use ozonebase.Libgen.Buffer.{Buffer, contents, tidy, consume, shrink, extract, range, copy_of}
use ozonebase.Libgen.Buffer.Room.{IsValid, length-contents, read_at-ok}

-- What `tidy( 0 )` leaves.
tidied : Buffer → Buffer
tidied b = if b.head == 0 then b else if b.size == 0 then record b { head = 0; tail = 0 } else b

tidy-tidied : (b : Buffer) → tidy b false ≡ ok (tidied b)
unfolding tidy tidied
tidy-tidied b = ground arith

tidied-IsValid : (b : Buffer) → IsValid b → IsValid (tidied b)
unfolding tidied
tidied-IsValid b v = ground arith

size-tidied : (b : Buffer) → (tidied b).size ≡ b.size
unfolding tidied
size-tidied b = ground arith

tidied-same :
    (b : Buffer) → ((tidied b).allocation ≡ b.allocation) × ((tidied b).adopted ≡ b.adopted)
unfolding tidied
tidied-same b = ground arith

take_of_zero : (n : ℕ) (xs ys : List ℕ) → (n == 0) ≡ true → take n xs ≡ take n ys
take_of_zero n xs ys h = let e : n ≡ 0 = ground arith in rw e

contents-tidied : (b : Buffer) → contents (tidied b) ≡ contents b
unfolding tidied
contents-tidied b = elim (Bool-cases (b.head == 0)) [
  | inl start ↦ rw start
  | inr moved ↦ elim (Bool-cases (b.size == 0)) [
    | inl none ↦ rw (moved, none) (take_of_zero b.size b.storage (drop b.head b.storage) none)
    | inr more ↦ rw (moved, more)
  ]
]

-- The buffer that is left when `n` bytes go from the front, before it is tidied.
abbrev advanced : Buffer → ℕ → Buffer
advanced b n = record b { head = b.head + n; size = b.size - n }

abbrev taken : Buffer → ℕ → ℕ
taken b count = if ltb b.size count then b.size else count

taken-min : (b : Buffer) (count : ℕ) → taken b count ≡ min count b.size
taken-min b count = ground arith

advanced-IsValid : (b : Buffer) (n : ℕ) → IsValid b → n ≤ b.size → IsValid (advanced b n)
advanced-IsValid b n v h = omega (arith, v.stored, v.room, v.ends, v.small)

contents-advanced :
    (b : Buffer) (n : ℕ) → n ≤ b.size → contents (advanced b n) ≡ drop n (contents b)
contents-advanced b n h =
    ap (take (b.size - n)) (sym (drop-drop n b.head b.storage))
    ∙ sym (drop-take n (b.size - n) b.size (drop b.head b.storage) (omega arith))

consume-eq :
    (b : Buffer) (count : ℕ)
    → consume b count ≡ ok (taken b count, tidied (advanced b (taken b count)))
unfolding consume
consume-eq b count = ground (arith, tidy-tidied (advanced b (taken b count)))

advanced-drop :
    (b : Buffer) (count : ℕ)
    → IsValid b
    → contents (tidied (advanced b (taken b count))) ≡ drop count (contents b)
advanced-drop b count v =
    contents-tidied (advanced b (taken b count))
    ∙ (contents-advanced b (taken b count) (omega (arith, taken-min b count))
        ∙ (ap (λ k. drop k (contents b))
              (taken-min b count ∙ ap (min count) (sym (length-contents v)))
            ∙ drop-min count (contents b)))

-- `consume` takes the first `count` bytes off, or all of them where there are fewer, and says how
-- many went; a valid buffer stays valid, with the same allocation.
pub consume_lem :
    (b : Buffer) (count : ℕ)
    → IsValid b
    → (b' : Buffer) × (consume b count ≡ ok (min count b.size, b'))
      × IsValid b'
      × (b'.size ≡ b.size - count)
      × (contents b' ≡ drop count (contents b))
      × (b'.allocation ≡ b.allocation)
      × (b'.adopted ≡ b.adopted)
consume_lem b count v = (
  tidied (advanced b n),
  consume-eq b count ∙ ap (λ k. ok (k, tidied (advanced b n))) (taken-min b count),
  tidied-IsValid _ (advanced-IsValid b n v le),
  size-tidied (advanced b n) ∙ omega (arith, taken-min b count),
  advanced-drop b count v,
  (tidied-same (advanced b n)).0,
  (tidied-same (advanced b n)).1,
)
  where
    n : ℕ
    n = taken b count

    le : taken b count ≤ b.size
    le = omega (arith, taken-min b count)

extract-eq :
    (b : Buffer) (count : ℕ)
    → IsValid b
    → extract b count
      ≡ ok (take (taken b count) (drop b.head b.storage), tidied (advanced b (taken b count)))
unfolding extract
extract-eq b count v = ground (
  arith,
  tidy-tidied (advanced b (taken b count)),
  read_at-ok b.storage b.head (taken b count),
  v.stored,
  v.room,
)

-- On a valid buffer extract shows the first bytes asked for, or all where there are fewer, and
-- leaves the others in a valid buffer.
pub extract_lem :
    (b : Buffer) (count : ℕ)
    → IsValid b
    → (b' : Buffer) × (extract b count ≡ ok (take (min count b.size) (contents b), b'))
      × IsValid b'
      × (contents b' ≡ drop count (contents b))
extract_lem b count v = (
  tidied (advanced b n),
  extract-eq b count v ∙ ap (λ xs. ok (xs, tidied (advanced b n))) first,
  tidied-IsValid _ (advanced-IsValid b n v le),
  advanced-drop b count v,
)
  where
    n : ℕ
    n = taken b count

    le : taken b count ≤ b.size
    le = omega (arith, taken-min b count)

    first : take (taken b count) (drop b.head b.storage) ≡ take (min count b.size) (contents b)
    first =
        sym (take-take n b.size (drop b.head b.storage) le)
        ∙ ap (λ k. take k (contents b)) (taken-min b count)

-- The buffer that is left when `n` bytes go from the end, before it is tidied.
abbrev shortened : Buffer → ℕ → Buffer
shortened b n = record b { size = b.size - n; tail = b.head + (b.size - n) }

shrink-eq :
    (b : Buffer) (count : ℕ)
    → IsValid b
    → shrink b count ≡ ok (taken b count, tidied (shortened b (taken b count)))
unfolding shrink
shrink-eq b count v = ground (arith, tidy-tidied (shortened b (taken b count)), v.ends)

-- `shrink` takes `count` bytes off the end, or all of them where there are fewer, and says how many
-- went; a valid buffer stays valid, with the same allocation.
pub shrink_lem :
    (b : Buffer) (count : ℕ)
    → IsValid b
    → (b' : Buffer) × (shrink b count ≡ ok (min count b.size, b'))
      × IsValid b'
      × (contents b' ≡ take (b.size - count) (contents b))
      × (b'.allocation ≡ b.allocation)
      × (b'.adopted ≡ b.adopted)
shrink_lem b count v = (
  tidied (shortened b n),
  shrink-eq b count v ∙ ap (λ k. ok (k, tidied (shortened b n))) (taken-min b count),
  tidied-IsValid (shortened b n) (omega (arith, v.stored, v.room, v.ends, v.small)),
  contents-tidied (shortened b n)
      ∙ (sym (take-take (b.size - n) b.size (drop b.head b.storage) (omega arith))
          ∙ ap (λ k. take k (contents b)) (omega (arith, taken-min b count))),
  (tidied-same (shortened b n)).0,
  (tidied-same (shortened b n)).1,
)
  where
    n : ℕ
    n = taken b count

-- On a valid buffer range gives a copy of the bytes from a position on, when the position is
-- inside the buffer and the bytes lie in it.
pub range_lem :
    (b : Buffer) (index n : ℕ)
    → IsValid b
    → index < b.size
    → index + n ≤ b.size
    → range b index n ≡ ok (copy_of (take n (drop index (contents b))))
unfolding range
range_lem b index n v h l =
    ground (arith, read_at-ok b.storage (b.head + index) n, same, v.stored, v.room, v.ends)
  where
    same : take n (drop (b.head + index) b.storage) ≡ take n (drop index (contents b))
    same =
        ap (take n) (sym (drop-drop index b.head b.storage))
        ∙ (sym (take-take n (b.size - index) (drop index (drop b.head b.storage)) (omega arith))
            ∙ ap (take n) (
                sym
                  (drop-take index (b.size - index) b.size (drop b.head b.storage) (omega arith))))
