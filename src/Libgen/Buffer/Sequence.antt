-- ===== src/Libgen/Buffer/Sequence.antt =====
-- A buffer as its users see it: a sequence of bytes that grows and shrinks at both ends.
use ozonebase.Prelude.{
  ℕ, ◌+◌, ◌-◌, ◌^◌, ◌≤◌, ◌<◌, ◌≡◌, refl, sym, ap, subst, ◌∙◌, false, List, [], ◌∷◌, ◌++◌, arith,
  length, take, drop,
}
use ozonebase.Libgen.Outcome.{Outcome, ok, ◌>>=◌}
use ozonebase.Libgen.Buffer.{Buffer, contents, assign, append, insert, consume, shrink}
use ozonebase.Libgen.Buffer.Room.{IsValid, length-contents}
use ozonebase.Libgen.Buffer.Append.{Holds, append_lem, insert_lem}
use ozonebase.Libgen.Buffer.Trim.{consume_lem, shrink_lem}
use ozonebase.Libgen.Buffer.Resize.{assign_lem}

-- The calls of a client.
pub data Op : Type 0 where
  assigns appends inserts : List ℕ → Op
  consumes shrinks : ℕ → Op

-- What each does to the sequence.
unfoldable pub view : List ℕ → Op → List ℕ
view xs (assigns bytes) = bytes
view xs (appends bytes) = xs ++ bytes
view xs (inserts bytes) = bytes ++ xs
view xs (consumes count) = drop count xs
view xs (shrinks count) = take (length xs - count) xs

unfoldable pub view_all : List ℕ → List Op → List ℕ
unfolding view
view_all xs [] = xs
view_all xs (o ∷ os) = view_all (view xs o) os

-- What each does to the buffer.
pub step : Buffer → Op → Outcome Buffer
step b (assigns bytes) = assign b bytes >>= λ r. ok (r.1)
step b (appends bytes) = append b bytes >>= λ r. ok (r.1)
step b (inserts bytes) = insert b bytes >>= λ r. ok (r.1)
step b (consumes count) = consume b count >>= λ r. ok (r.1)
step b (shrinks count) = shrink b count >>= λ r. ok (r.1)

pub run : Buffer → List Op → Outcome Buffer
run b [] = ok b
run b (o ∷ os) = step b o >>= λ b'. run b' os

-- The bytes that a call brings in.
abbrev pub brought : Op → ℕ
brought (assigns bytes) = length bytes
brought (appends bytes) = length bytes
brought (inserts bytes) = length bytes
brought (consumes count) = 0
brought (shrinks count) = 0

abbrev pub total : List Op → ℕ
total [] = 0
total (o ∷ os) = brought o + total os

record Stepped (b : Buffer) (o : Op) (b' : Buffer) : Type 0 where
  ran : step b o ≡ ok b'
  holds : Holds b' (view (contents b) o)
  bounded : b'.allocation ≤ b.allocation + brought o

step-Stepped :
    (b : Buffer) (o : Op)
    → IsValid b
    → b.adopted ≡ false
    → b.allocation + brought o < 2 ^ 31
    → (b' : Buffer) × Stepped b o b'
unfolding step view
step-Stepped b (assigns bytes) v a s =
    let (b', e, h, l) = assign_lem b bytes v a (omega arith) in
    (b', record { ran = ap (λ r. r >>= λ x. ok (x.1)) e; holds = h; bounded = l })
step-Stepped b (appends bytes) v a s =
    let (b', e, h, l) = append_lem b bytes v a s in
    (b', record { ran = ap (λ r. r >>= λ x. ok (x.1)) e; holds = h; bounded = l })
step-Stepped b (inserts bytes) v a s =
    let (b', e, h, l) = insert_lem b bytes v a s in
    (b', record { ran = ap (λ r. r >>= λ x. ok (x.1)) e; holds = h; bounded = l })
step-Stepped b (consumes count) v a s =
    let (b', e, v', _, c, l, o) = consume_lem b count v in
    (
      b',
      record {
        ran = ap (λ r. r >>= λ x. ok (x.1)) e;
        holds = record { valid = v'; shows = c; owned = o ∙ a };
        bounded = omega arith;
      },
    )
step-Stepped b (shrinks count) v a s =
    let (b', e, v', c, l, o) = shrink_lem b count v in
    (
      b',
      record {
        ran = ap (λ r. r >>= λ x. ok (x.1)) e;
        holds = record {
          valid = v';
          shows = c ∙ ap (λ k. take (k - count) (contents b)) (sym (length-contents v));
          owned = o ∙ a;
        };
        bounded = omega arith;
      },
    )

-- A valid buffer that owns its storage behaves as the sequence of its bytes under every list of
-- `assign`, `append`, `insert`, `consume` and `shrink` calls: no call faults or panics, and the
-- buffer ends valid and showing the sequence that the calls describe, as long as the allocation
-- and the bytes brought in stay below 2 ^ 31 together.
pub run-view_all :
    (b : Buffer) (os : List Op)
    → IsValid b
    → b.adopted ≡ false
    → b.allocation + total os < 2 ^ 31
    → (b' : Buffer) × (run b os ≡ ok b') × Holds b' (view_all (contents b) os)
unfolding run view_all
run-view_all b [] v a s = (b, refl, record { valid = v; shows = refl; owned = a })
run-view_all b (o ∷ os) v a s =
    let (b', t) = step-Stepped b o v a (omega arith) in
    let (b'', e, h) = run-view_all b' os t.holds.valid t.holds.owned (omega (arith, t.bounded)) in
    (
      b'',
      ap (λ r. r >>= λ x. run x os) t.ran ∙ e,
      subst (λ xs. Holds b'' (view_all xs os)) t.holds.shows h,
    )
