-- ===== src/Libgen/Bytes.antt =====
-- Reading fields off the front of a byte sequence and writing them, most significant byte first:
-- memcpy with be16toh, be64toh and their inverses, as server/src/protocols uses them. A read past
-- the end is a fault.
use ozonebase.Prelude.{
  ℕ, zero, suc, ◌+◌, ◌*◌, ◌/◌, ◌%◌, ◌^◌, ◌<◌, ◌≡◌, refl, ap, ◌∙◌, List, [], ◌∷◌, ◌++◌, arith,
  length,
}
use native.Mathlib.Nat.{pow-succ', mod-eq_of_lt, add-mul-mod_self_left, div-add-mod'}
use ozonebase.Libgen.Outcome.{Outcome, ok, fault, ◌>>=◌}

-- `n` bytes of a number, the most significant first.
unfoldable pub to_be : ℕ → ℕ → List ℕ
to_be zero x = []
to_be (suc n) x = x / 256 ^ n % 256 ∷ to_be n x

unfoldable pub read_be : ℕ → ℕ → List ℕ → Outcome (ℕ × List ℕ)
read_be zero acc bytes = ok (acc, bytes)
read_be (suc n) acc [] = fault
read_be (suc n) acc (b ∷ bytes) = read_be n (acc * 256 + b) bytes

-- The same with the least significant byte first.
unfoldable pub to_le : ℕ → ℕ → List ℕ
to_le zero x = []
to_le (suc n) x = x % 256 ∷ to_le n (x / 256)

unfoldable pub read_le : ℕ → List ℕ → Outcome (ℕ × List ℕ)
read_le zero bytes = ok (0, bytes)
read_le (suc n) [] = fault
read_le (suc n) (b ∷ bytes) = read_le n bytes >>= λ r. ok (b + 256 * r.0, r.1)

-- The first `n` bytes, and the others.
unfoldable pub split_bytes : ℕ → List ℕ → Outcome (List ℕ × List ℕ)
split_bytes zero bytes = ok ([], bytes)
split_bytes (suc n) [] = fault
split_bytes (suc n) (b ∷ bytes) = split_bytes n bytes >>= λ r. ok (b ∷ r.0, r.1)

pub length-to_be : (n x : ℕ) → length (to_be n x) ≡ n
unfolding to_be
length-to_be zero x = refl
length-to_be (suc n) x = ap suc (length-to_be n x)

pub split_bytes-append : (xs rest : List ℕ) → split_bytes (length xs) (xs ++ rest) ≡ ok (xs, rest)
unfolding split_bytes
split_bytes-append [] rest = refl
split_bytes-append (x ∷ xs) rest =
    ap (λ m. m >>= λ r. ok (x ∷ r.0, r.1)) (split_bytes-append xs rest)

-- What is read never adds bytes.
pub length-split_bytes :
    (n : ℕ) (bytes : List ℕ) {r : List ℕ × List ℕ}
    → split_bytes n bytes ≡ ok r
    → length (r.1) + n ≡ length bytes
unfolding split_bytes
length-split_bytes zero bytes e = ground arith
length-split_bytes (suc n) [] e = cc
length-split_bytes (suc n) (b ∷ bytes) {r} e =
    go (split_bytes n bytes) (λ q h. length-split_bytes n bytes {r = q} h) e
  where
    go :
        (o : Outcome (List ℕ × List ℕ))
        → ((r' : List ℕ × List ℕ) → o ≡ ok r' → length (r'.1) + n ≡ length bytes)
        → (o >>= λ q. ok (b ∷ q.0, q.1)) ≡ ok r
        → length (r.1) + suc n ≡ suc (length bytes)
    go (ok q) h e = ground (arith, h q)
    go _ h e = cc

pub length-read_be :
    (n acc : ℕ) (bytes : List ℕ) {r : ℕ × List ℕ}
    → read_be n acc bytes ≡ ok r
    → length (r.1) + n ≡ length bytes
unfolding read_be
length-read_be zero acc bytes e = ground arith
length-read_be (suc n) acc [] e = cc
length-read_be (suc n) acc (b ∷ bytes) e = omega (arith, length-read_be n (acc * 256 + b) bytes e)

pow_pos : (n : ℕ) → 0 < 256 ^ n
pow_pos zero = omega arith
pow_pos (suc n) = rw (pow-succ' 256 n) (omega (arith, pow_pos n))

digit_lt : (p d r : ℕ) → r < p → d < 256 → d * p + r < 256 * p
digit_lt p d r h k = grind arith

-- A number modulo 256 p is its digit at p with what is below.
mod_split : (p x : ℕ) → 0 < p → x % (256 * p) ≡ x / p % 256 * p + x % p
mod_split p x h =
    ap (λ k. k % (256 * p)) whole
    ∙ (add-mul-mod_self_left (x / p % 256 * p + x % p) (256 * p) (x / p / 256)
        ∙ mod-eq_of_lt (digit_lt p (x / p % 256) (x % p) (omega arith) (omega arith)))
  where
    digits : x / p ≡ 256 * (x / p / 256) + x / p % 256
    digits = omega arith

    scaled : x / p * p ≡ 256 * p * (x / p / 256) + x / p % 256 * p
    scaled = omega (arith, ap (λ (t : ℕ). t * p) digits)

    whole : x ≡ x / p % 256 * p + x % p + 256 * p * (x / p / 256)
    whole = omega (arith, div-add-mod' x p, scaled)

-- The general round trip, over what was read before.
read_be-to_be_from :
    (n acc x : ℕ) (rest : List ℕ)
    → read_be n acc (to_be n x ++ rest) ≡ ok (acc * 256 ^ n + x % 256 ^ n, rest)
unfolding read_be to_be
read_be-to_be_from zero acc x rest = ap (λ k. ok (k, rest)) (omega arith)
read_be-to_be_from (suc n) acc x rest =
    read_be-to_be_from n (acc * 256 + x / 256 ^ n % 256) x rest
    ∙ ap (λ k. ok (k, rest))
        (rw (pow-succ' 256 n) (omega (arith, mod_split (256 ^ n) x (pow_pos n))))

pub read_be-to_be :
    (n x : ℕ) (rest : List ℕ) → x < 256 ^ n → read_be n 0 (to_be n x ++ rest) ≡ ok (x, rest)
read_be-to_be n x rest h =
    read_be-to_be_from n 0 x rest ∙ ap (λ k. ok (k, rest)) (omega (arith, mod-eq_of_lt h))

pub read_be_one : (b : ℕ) (rest : List ℕ) → read_be 1 0 (b ∷ rest) ≡ ok (b, rest)
unfolding read_be
read_be_one b rest = ap (λ k. ok (k, rest)) (omega arith)

pub read_le-to_le :
    (n x : ℕ) (rest : List ℕ) → x < 256 ^ n → read_le n (to_le n x ++ rest) ≡ ok (x, rest)
unfolding read_le to_le
read_le-to_le zero x rest h = ap (λ k. ok (k, rest)) (omega arith)
read_le-to_le (suc n) x rest h =
    ap (λ m. m >>= λ r. ok (x % 256 + 256 * r.0, r.1)) (read_le-to_le n (x / 256) rest smaller)
    ∙ ap (λ k. ok (k, rest)) (omega arith)
  where
    smaller : x / 256 < 256 ^ n
    smaller = omega (arith, pow-succ' 256 n)
