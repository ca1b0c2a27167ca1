-- ===== src/Libgen/Text.antt =====
-- Texts as lists of bytes: std::string, its `c_str`, and `stringtf` of server/src/libgen/libgenUtils.cpp
-- for the one use that the protocols make of it, a format with one `%s`.
use Prim.Native.Char.{code}
use Prim.Native.String.{String}
use ozonebase.Prelude.{
  ℕ, ◌≡◌, refl, Bool, true, false, ◌&&◌, List, [], ◌∷◌, ◌++◌, arith, ltb, ◌==◌, if◌then◌else◌,
  length,
}
use ozonebase.Libgen.Outcome.{Outcome, ok, fault}

-- The bytes of a literal.
abbrev pub codes : String → List ℕ
codes String.[] = []
codes (String.◌∷◌ c s) = code c ∷ codes s

-- `operator==` of two texts.
unfoldable pub same : List ℕ → List ℕ → Bool
same [] [] = true
same [] (b ∷ bs) = false
same (a ∷ cs) [] = false
same (a ∷ cs) (b ∷ bs) = (a == b) && same cs bs

-- What a C string shows of a text: the bytes before the first zero.
abbrev pub c_str : List ℕ → List ℕ
c_str [] = []
c_str (b ∷ bytes) = let rest = c_str bytes in if b == 0 then [] else b ∷ rest

-- BUFSIZ of the C library.
abbrev pub bufsiz : ℕ
bufsiz = 8192

-- A text between two literals. One that does not fit in the buffer is formatted a second time from
-- the argument list that the first time has used up, which C leaves undefined.
unfoldable pub stringtf : List ℕ → List ℕ → List ℕ → Outcome (List ℕ)
stringtf before text after =
    let bytes = before ++ (c_str text ++ after) in
    if ltb (length bytes) bufsiz then ok bytes else fault

pub same_sound : (cs bs : List ℕ) → same cs bs ≡ true → cs ≡ bs
unfolding same
same_sound [] [] e = refl
same_sound [] (b ∷ bs) e = cc
same_sound (a ∷ cs) [] e = cc
same_sound (a ∷ cs) (b ∷ bs) e = ground (arith, same_sound cs bs)

pub same_self : (cs : List ℕ) → same cs cs ≡ true
unfolding same
same_self [] = refl
same_self (a ∷ cs) = ground (arith, same_self cs)
