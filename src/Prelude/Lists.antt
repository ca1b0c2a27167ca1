-- ===== src/Prelude/Lists.antt =====
-- Lists measured and indexed by native numbers, under the library's names.
use Prim.Native.Nat.{ℕ, zero, suc, ◌+◌, ◌-◌, ◌<◌, ◌≤◌, min}
use mathlib.Core.Path.{◌≡◌, refl, sym, ap, ◌∙◌}
use mathlib.Core.Logic.{◌≢◌}
use mathlib.Core.List.{List, [], ◌∷◌, ◌++◌, map, append-nil}
use mathlib.Core.Option.{Option, none, some}
use native.Mathlib.Omega.{arith}

module _ {ℓ} {A : Type ℓ} where
  abbrev pub length : List A → ℕ
  length [] = 0
  length (x ∷ xs) = suc (length xs)

  abbrev pub get_elem? : List A → ℕ → Option A
  get_elem? [] i = none
  get_elem? (x ∷ xs) zero = some x
  get_elem? (x ∷ xs) (suc i) = get_elem? xs i

  -- A write out of bounds changes nothing.
  abbrev pub set : List A → ℕ → A → List A
  set [] i v = []
  set (x ∷ xs) zero v = v ∷ xs
  set (x ∷ xs) (suc i) v = x ∷ set xs i v

  pub length-append : (xs ys : List A) → length (xs ++ ys) ≡ length xs + length ys
  length-append [] ys = omega arith
  length-append (x ∷ xs) ys = omega (arith, length-append xs ys)

module _ {ℓ} {A : Type ℓ} where
  pub length-set : (xs : List A) (i : ℕ) (v : A) → length (set xs i v) ≡ length xs
  length-set [] i v = refl
  length-set (x ∷ xs) zero v = refl
  length-set (x ∷ xs) (suc i) v = ap suc (length-set xs i v)

  pub get_elem?-set_self :
      (xs : List A) (i : ℕ) (v : A) → i < length xs → get_elem? (set xs i v) i ≡ some v
  get_elem?-set_self [] i v h = elim h [ ]
  get_elem?-set_self (x ∷ xs) zero v h = refl
  get_elem?-set_self (x ∷ xs) (suc i) v h = get_elem?-set_self xs i v (omega arith)

  pub get_elem?-set_ne :
      (xs : List A) {i j : ℕ} (v : A) → i ≢ j → get_elem? (set xs i v) j ≡ get_elem? xs j
  get_elem?-set_ne [] v h = refl
  get_elem?-set_ne (x ∷ xs) {i = zero} {j = zero} v h = absurd (h refl)
  get_elem?-set_ne (x ∷ xs) {i = zero} {j = suc j} v h = refl
  get_elem?-set_ne (x ∷ xs) {i = suc i} {j = zero} v h = refl
  get_elem?-set_ne (x ∷ xs) {i = suc i} {j = suc j} v h = get_elem?-set_ne xs v (λ e. h (ap suc e))

module _ {ℓ} {A : Type ℓ} where
  abbrev pub get_or : List A → ℕ → A → A
  get_or [] i d = d
  get_or (x ∷ xs) zero d = x
  get_or (x ∷ xs) (suc i) d = get_or xs i d

  abbrev pub take : ℕ → List A → List A
  take zero xs = []
  take (suc n) [] = []
  take (suc n) (x ∷ xs) = x ∷ take n xs

  abbrev pub drop : ℕ → List A → List A
  drop zero xs = xs
  drop (suc n) [] = []
  drop (suc n) (x ∷ xs) = drop n xs

  abbrev pub replicate : ℕ → A → List A
  replicate zero a = []
  replicate (suc n) a = a ∷ replicate n a

  pub take-append-drop : (n : ℕ) (xs : List A) → take n xs ++ drop n xs ≡ xs
  take-append-drop zero xs = refl
  take-append-drop (suc n) [] = refl
  take-append-drop (suc n) (x ∷ xs) = rw (take-append-drop n xs)

  pub length-take : (n : ℕ) (xs : List A) → length (take n xs) ≡ min n (length xs)
  length-take zero xs = omega arith
  length-take (suc n) [] = omega arith
  length-take (suc n) (x ∷ xs) = omega (arith, length-take n xs)

  pub length-drop : (n : ℕ) (xs : List A) → length (drop n xs) ≡ length xs - n
  length-drop zero xs = omega arith
  length-drop (suc n) [] = omega arith
  length-drop (suc n) (x ∷ xs) = omega (arith, length-drop n xs)

  pub length-replicate : (n : ℕ) (a : A) → length (replicate n a) ≡ n
  length-replicate zero a = refl
  length-replicate (suc n) a = ap suc (length-replicate n a)

  pub length-map {κ} : {B : Type κ} (xs : List A) (f : A → B) → length (map f xs) ≡ length xs
  length-map [] f = refl
  length-map (x ∷ xs) f = ap suc (length-map xs f)

min-zero : (n : ℕ) → min 0 n ≡ 0
min-zero n = omega arith

zero-min : (n : ℕ) → min n 0 ≡ 0
zero-min n = omega arith

min-suc : (m n : ℕ) → min (suc m) (suc n) ≡ suc (min m n)
min-suc m n = omega arith

sub-zero : (n : ℕ) → n ≡ n - 0
sub-zero n = omega arith

zero-sub-suc : (m : ℕ) → 0 ≡ 0 - suc m
zero-sub-suc m = omega arith

suc-sub-suc : (n m : ℕ) → n - m ≡ suc n - suc m
suc-sub-suc n m = omega arith

add-suc-eq : (n m : ℕ) → suc (n + m) ≡ suc n + m
add-suc-eq n m = omega arith

module _ {ℓ} {A : Type ℓ} where
  pub drop-take-append :
      (h s k : ℕ) (xs ys : List A)
      → k ≡ h + s
      → k ≤ length xs
      → drop h (take k xs ++ ys) ≡ take s (drop h xs) ++ ys
  drop-take-append zero s k xs ys e l = ap (λ n. take n xs ++ ys) (omega arith)
  drop-take-append (suc h) s zero xs ys e l = absurd (omega arith)
  drop-take-append (suc h) s (suc k) [] ys e l = absurd (omega arith)
  drop-take-append (suc h) s (suc k) (x ∷ xs) ys e l =
      drop-take-append h s k xs ys (omega arith) (omega arith)

  pub take-append :
      (k m : ℕ) (xs ys : List A) → k ≡ length xs + m → take k (xs ++ ys) ≡ xs ++ take m ys
  take-append k m [] ys e = ap (λ n. take n ys) (omega arith)
  take-append zero m (x ∷ xs) ys e = absurd (omega arith)
  take-append (suc k) m (x ∷ xs) ys e = ap (◌∷◌ x) (take-append k m xs ys (omega arith))

  pub drop-append : (k m : ℕ) (xs ys : List A) → k ≡ length xs + m → drop k (xs ++ ys) ≡ drop m ys
  drop-append k m [] ys e = ap (λ n. drop n ys) (omega arith)
  drop-append zero m (x ∷ xs) ys e = absurd (omega arith)
  drop-append (suc k) m (x ∷ xs) ys e = drop-append k m xs ys (omega arith)

  pub take-append_self : (k : ℕ) (xs ys : List A) → k ≡ length xs → take k (xs ++ ys) ≡ xs
  take-append_self k xs ys e = take-append k 0 xs ys (omega arith) ∙ append-nil xs

  pub drop-append_self : (k : ℕ) (xs ys : List A) → k ≡ length xs → drop k (xs ++ ys) ≡ ys
  drop-append_self k xs ys e = drop-append k 0 xs ys (omega arith)

  pub drop-nil : (n : ℕ) → drop {A = A} n [] ≡ []
  drop-nil zero = refl
  drop-nil (suc n) = refl

  pub take-nil : (n : ℕ) → take {A = A} n [] ≡ []
  take-nil zero = refl
  take-nil (suc n) = refl

  pub drop-drop : (m n : ℕ) (xs : List A) → drop m (drop n xs) ≡ drop (n + m) xs
  drop-drop m zero xs = ap (λ k. drop k xs) (omega arith)
  drop-drop m (suc n) [] = rw (drop-nil m, drop-nil (suc n + m))
  drop-drop m (suc n) (x ∷ xs) = drop-drop m n xs ∙ ap (λ k. drop k (x ∷ xs)) (add-suc-eq n m)

  pub drop-take : (m n k : ℕ) (xs : List A) → k ≡ m + n → drop m (take k xs) ≡ take n (drop m xs)
  drop-take zero n k xs e = ap (λ i. take i xs) (omega arith)
  drop-take (suc m) n zero xs e = absurd (omega arith)
  drop-take (suc m) n (suc k) [] e = sym (take-nil n)
  drop-take (suc m) n (suc k) (x ∷ xs) e = drop-take m n k xs (omega arith)

  pub take-take : (m n : ℕ) (xs : List A) → m ≤ n → take m (take n xs) ≡ take m xs
  take-take zero n xs h = refl
  take-take (suc m) zero xs h = absurd (omega arith)
  take-take (suc m) (suc n) [] h = refl
  take-take (suc m) (suc n) (x ∷ xs) h = ap (◌∷◌ x) (take-take m n xs (omega arith))

  pub take_all : (n : ℕ) (xs : List A) → length xs ≤ n → take n xs ≡ xs
  take_all zero [] h = refl
  take_all zero (x ∷ xs) h = absurd (omega arith)
  take_all (suc n) [] h = refl
  take_all (suc n) (x ∷ xs) h = ap (◌∷◌ x) (take_all n xs (omega arith))

  pub drop_all : (n : ℕ) (xs : List A) → length xs ≤ n → drop n xs ≡ []
  drop_all zero [] h = refl
  drop_all zero (x ∷ xs) h = absurd (omega arith)
  drop_all (suc n) [] h = refl
  drop_all (suc n) (x ∷ xs) h = drop_all n xs (omega arith)

  pub drop-min : (n : ℕ) (xs : List A) → drop (min n (length xs)) xs ≡ drop n xs
  drop-min zero xs = ap (λ k. drop k xs) (min-zero (length xs))
  drop-min (suc n) [] = ap (λ k. drop {A = A} k []) (zero-min (suc n))
  drop-min (suc n) (x ∷ xs) = ap (λ k. drop k (x ∷ xs)) (min-suc n (length xs)) ∙ drop-min n xs

  pub drop-length-append :
      (k : ℕ) (xs ys : List A) → k ≤ length xs → drop k (xs ++ ys) ≡ drop k xs ++ ys
  drop-length-append zero xs ys h = refl
  drop-length-append (suc k) [] ys h = absurd (omega arith)
  drop-length-append (suc k) (x ∷ xs) ys h = drop-length-append k xs ys (omega arith)

  pub drop-replicate : (m n : ℕ) (a : A) → drop m (replicate n a) ≡ replicate (n - m) a
  drop-replicate zero n a = ap (λ k. replicate k a) (sub-zero n)
  drop-replicate (suc m) zero a = ap (λ k. replicate k a) (zero-sub-suc m)
  drop-replicate (suc m) (suc n) a =
      drop-replicate m n a ∙ ap (λ k. replicate k a) (suc-sub-suc n m)
