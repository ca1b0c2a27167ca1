-- ===== src/Libgen/Buffer/Append.antt =====
-- What `append` and `insert` do to the bytes of a buffer.
use ozonebase.Prelude.{
  ℕ, ◌+◌, ◌^◌, ◌≤◌, ◌<◌, ◌≡◌, refl, sym, ap, ◌∙◌, false, List, ◌++◌, arith, length, take, drop,
  length-append, length-take, length-drop, take-append, take-append_self, drop-take-append,
  drop-append_self,
}
use ozonebase.Libgen.Outcome.{ok}
use ozonebase.Libgen.Buffer.{Buffer, contents, expand, append, insert}
use ozonebase.Libgen.Buffer.Room.{IsValid, expand-ok, length-contents, read_at-ok, write_at-ok}

-- A buffer that an operation returned, with what it shows.
pub record Holds (b : Buffer) (bytes : List ℕ) : Type 0 where
  pub valid : IsValid b
  pub shows : contents b ≡ bytes
  pub owned : b.adopted ≡ false

-- The buffer with `bytes` written behind the tail.
abbrev appended : Buffer → List ℕ → Buffer
appended b bytes = record b {
  storage = take b.tail b.storage ++ (bytes ++ drop (b.tail + length bytes) b.storage);
  tail = b.tail + length bytes;
  size = b.size + length bytes;
}

length-splice :
    (block : List ℕ) (at : ℕ) (bytes : List ℕ)
    → at + length bytes ≤ length block
    → length (take at block ++ (bytes ++ drop (at + length bytes) block)) ≡ length block
length-splice block at bytes h = omega (
  arith,
  length-append (take at block) (bytes ++ drop (at + length bytes) block),
  length-append bytes (drop (at + length bytes) block),
  length-take at block,
  length-drop (at + length bytes) block,
)

appended-Holds :
    (b : Buffer) (bytes : List ℕ)
    → IsValid b
    → b.adopted ≡ false
    → b.tail + length bytes ≤ b.allocation
    → Holds (appended b bytes) (contents b ++ bytes)
appended-Holds b bytes v a h = record {
  valid = record {
    stored = length-splice b.storage b.tail bytes (omega (arith, v.stored)) ∙ v.stored;
    room = omega (arith, v.ends);
    ends = omega (arith, v.ends);
    small = v.small;
  };
  shows = shown;
  owned = a;
}
  where
    rest : List ℕ
    rest = drop (b.tail + length bytes) b.storage

    shown : contents (appended b bytes) ≡ contents b ++ bytes
    shown =
        ap (take (b.size + length bytes)) (
          drop-take-append b.head b.size b.tail b.storage (bytes ++ rest) v.ends
            (omega (arith, v.stored)))
        ∙ (take-append (b.size + length bytes) (length bytes) (contents b) (bytes ++ rest)
              (omega (arith, length-contents v))
            ∙ ap (◌++◌ (contents b)) (take-append_self (length bytes) bytes rest refl))

append-eq :
    (b b' : Buffer) (bytes : List ℕ)
    → b.adopted ≡ false
    → expand b (length bytes) ≡ ok b'
    → b'.tail + length bytes ≤ length b'.storage
    → append b bytes ≡ ok (b'.size + length bytes, appended b' bytes)
unfolding append
append-eq b b' bytes a e h = ground (arith, write_at-ok b'.storage b'.tail bytes)

-- On a valid buffer that owns its storage `append` neither faults nor panics: it returns the new
-- size and puts the bytes behind those that were there, growing the allocation by no more than
-- their number, as long as the allocation stays below
-- 2 ^ 31 bytes.
pub append_lem :
    (b : Buffer) (bytes : List ℕ)
    → IsValid b
    → b.adopted ≡ false
    → b.allocation + length bytes < 2 ^ 31
    → (b' : Buffer) × (append b bytes ≡ ok (b.size + length bytes, b'))
      × Holds b' (contents b ++ bytes)
      × (b'.allocation ≤ b.allocation + length bytes)
append_lem b bytes v a s =
    let (b', e, x) = expand-ok b (length bytes) v a s in
    (
      appended b' bytes,
      append-eq b b' bytes a e (omega (arith, x.spare, x.valid.stored))
          ∙ ap (λ n. ok (n + length bytes, appended b' bytes)) x.size_kept,
      rw (← x.same) (appended-Holds b' bytes x.valid x.owned x.spare),
      x.bounded,
    )

-- The storage after the bytes from the head on have moved up, and then with `bytes` before them.
abbrev moved_up : Buffer → List ℕ → List ℕ
moved_up b bytes =
    take (b.head + length bytes) b.storage
    ++ (contents b ++ drop (b.head + length bytes + length (contents b)) b.storage)

abbrev inserted : Buffer → List ℕ → Buffer
inserted b bytes = record b {
  storage =
      take b.head (moved_up b bytes) ++ (bytes ++ drop (b.head + length bytes) (moved_up b bytes));
  tail = b.tail + length bytes;
  size = b.size + length bytes;
}

module _ (b : Buffer) (bytes : List ℕ) (v : IsValid b)
    (h : b.tail + length bytes ≤ b.allocation) where
  length-moved_up : length (moved_up b bytes) ≡ b.allocation
  length-moved_up =
      length-splice b.storage (b.head + length bytes) (contents b)
        (omega (arith, length-contents v, v.stored, v.ends))
      ∙ v.stored

  -- Behind the place that `bytes` take stand the old bytes.
  drop-moved_up :
      (rest : List ℕ) × (drop (b.head + length bytes) (moved_up b bytes) ≡ contents b ++ rest)
  drop-moved_up = (
    drop (b.head + length bytes + length (contents b)) b.storage,
    drop-append_self (b.head + length bytes) (take (b.head + length bytes) b.storage) _
        (omega (arith, length-take (b.head + length bytes) b.storage, v.stored, v.ends)),
  )

  inserted-shows : contents (inserted b bytes) ≡ bytes ++ contents b
  inserted-shows =
      let (rest, e) = drop-moved_up in
      ap (take (b.size + length bytes)) (
        drop-append_self b.head (take b.head (moved_up b bytes)) _
          (omega (arith, length-take b.head (moved_up b bytes), length-moved_up, v.ends)))
      ∙ (ap (λ r. take (b.size + length bytes) (bytes ++ r)) e
          ∙ (take-append (b.size + length bytes) b.size bytes (contents b ++ rest) (omega arith)
              ∙ ap (◌++◌ bytes)
                  (take-append_self b.size (contents b) rest (sym (length-contents v)))))

  inserted-Holds : b.adopted ≡ false → Holds (inserted b bytes) (bytes ++ contents b)
  inserted-Holds a = record {
    valid = record {
      stored =
          length-splice (moved_up b bytes) b.head bytes (omega (arith, length-moved_up, v.ends))
          ∙ length-moved_up;
      room = omega (arith, v.ends);
      ends = omega (arith, v.ends);
      small = v.small;
    };
    shows = inserted-shows;
    owned = a;
  }

  insert-eq :
      (b₀ : Buffer)
      → b₀.adopted ≡ false
      → expand b₀ (length bytes) ≡ ok b
      → insert b₀ bytes ≡ ok (b.size + length bytes, inserted b bytes)
  unfolding insert
  insert-eq b₀ a e = ground (
    arith,
    read_at-ok b.storage b.head b.size,
    write_at-ok b.storage (b.head + length bytes) (contents b),
    write_at-ok (moved_up b bytes) b.head bytes,
    length-moved_up,
    length-contents v,
    v.stored,
    v.room,
    v.ends,
  )

-- `insert` likewise puts the bytes in front of those that were there.
pub insert_lem :
    (b : Buffer) (bytes : List ℕ)
    → IsValid b
    → b.adopted ≡ false
    → b.allocation + length bytes < 2 ^ 31
    → (b' : Buffer) × (insert b bytes ≡ ok (b.size + length bytes, b'))
      × Holds b' (bytes ++ contents b)
      × (b'.allocation ≤ b.allocation + length bytes)
insert_lem b bytes v a s =
    let (b', e, x) = expand-ok b (length bytes) v a s in
    (
      inserted b' bytes,
      insert-eq b' bytes x.valid x.spare b a e
          ∙ ap (λ n. ok (n + length bytes, inserted b' bytes)) x.size_kept,
      rw (← x.same) (inserted-Holds b' bytes x.valid x.spare x.owned),
      x.bounded,
    )
