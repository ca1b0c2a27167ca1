-- ===== src/Libgen/Progress.antt =====
-- Readers that take bytes off the front of a sequence: they end, and leave no more bytes than there
-- were.
use ozonebase.Prelude.{
  ℕ, zero, suc, ◌+◌, ◌*◌, ◌≤◌, Bool, true, false, List, [], ◌∷◌, arith, length, if◌then◌else◌,
}
use ozonebase.Libgen.Outcome.{Outcome, ok, panic, fault, thrown, spent, ◌>>=◌}
use ozonebase.Libgen.Bytes.{read_be, read_le, split_bytes}

-- The fuel sufficed, and a result leaves at most `n` bytes.
abbrev pub Ends : {A : Type 0} → ℕ → Outcome (A × List ℕ) → Type 0
Ends n (ok r) = length (r.1) ≤ n
Ends n panic = Unit {0}
Ends n fault = Unit {0}
Ends n thrown = Unit {0}
Ends n spent = ⊥

pub Ends->>= :
    {A B : Type 0} (n k : ℕ) (m : Outcome (A × List ℕ)) (f : A × List ℕ → Outcome (B × List ℕ))
    → Ends k m
    → ((r : A × List ℕ) → length (r.1) ≤ k → Ends n (f r))
    → Ends n (m >>= f)
Ends->>= n k (ok r) f h g = g r h
Ends->>= n k panic f h g = tt
Ends->>= n k fault f h g = tt
Ends->>= n k thrown f h g = tt
Ends->>= n k spent f h g = h

pub Ends-mono : {A : Type 0} (o : Outcome (A × List ℕ)) (m n : ℕ) → m ≤ n → Ends m o → Ends n o
Ends-mono (ok r) m n h e = omega arith
Ends-mono panic m n h e = tt
Ends-mono fault m n h e = tt
Ends-mono thrown m n h e = tt
Ends-mono spent m n h e = e

pub read_be-Ends : (n acc : ℕ) (bytes : List ℕ) → Ends (length bytes) (read_be n acc bytes)
unfolding read_be
read_be-Ends zero acc bytes = omega arith
read_be-Ends (suc n) acc [] = tt
read_be-Ends (suc n) acc (b ∷ bytes) =
    Ends-mono (read_be n (acc * 256 + b) bytes) (length bytes) (suc (length bytes)) (omega arith)
      (read_be-Ends n (acc * 256 + b) bytes)

pub split_bytes-Ends : (n : ℕ) (bytes : List ℕ) → Ends (length bytes) (split_bytes n bytes)
unfolding split_bytes
split_bytes-Ends zero bytes = omega arith
split_bytes-Ends (suc n) [] = tt
split_bytes-Ends (suc n) (b ∷ bytes) =
    Ends->>= (suc (length bytes)) (length bytes) (split_bytes n bytes) _ (split_bytes-Ends n bytes)
      λ r h. omega arith

-- Passing on the bytes of one result with another value.
pub Ends-pass :
    {A B : Type 0} (n k : ℕ) (m : Outcome (A × List ℕ)) (g : A × List ℕ → B)
    → k ≤ n
    → Ends k m
    → Ends n (m >>= λ r. ok (g r, r.1))
Ends-pass n k m g le h = Ends->>= n k m _ h λ r l. omega arith

pub Ends-if :
    {A : Type 0} (n : ℕ) (b : Bool) (x y : Outcome (A × List ℕ))
    → Ends n x
    → Ends n y
    → Ends n (if b then x else y)
Ends-if n true x y h k = h
Ends-if n false x y h k = k

pub read_le-Ends : (n : ℕ) (bytes : List ℕ) → Ends (length bytes) (read_le n bytes)
unfolding read_le
read_le-Ends zero bytes = omega arith
read_le-Ends (suc n) [] = tt
read_le-Ends (suc n) (b ∷ bytes) =
    Ends-pass (suc (length bytes)) (length bytes) (read_le n bytes) _ (omega arith)
      (read_le-Ends n bytes)
