-- ===== src/Libimg/Box/Union.antt =====
-- Boxes around boxes (server/src/libimg/libimgBox.h).
use ozonebase.Prelude.{◌≡◌, refl, ◌⊎◌, inl, inr, Bool, true, false, ℤ, arith, ltb_ℤ, not, ◌&&◌}
use ozonebase.Libimg.Coord.{Coord, max, min, min_ℤ, max_ℤ}
use ozonebase.Libimg.Box.{Box, box_of, inside, union}

-- A coordinate between two others.
abbrev within : ℤ → ℤ → ℤ → Bool
within low high x = not (ltb_ℤ x low) && not (ltb_ℤ high x)

within_first : (a b c d x : ℤ) → within a c x ≡ true → within (min_ℤ a b) (max_ℤ c d) x ≡ true
within_first a b c d x h = ground arith

within_second : (a b c d x : ℤ) → within b d x ≡ true → within (min_ℤ a b) (max_ℤ c d) x ≡ true
within_second a b c d x h = ground arith

within_min :
    (a b low high : ℤ)
    → within low high a ≡ true
    → within low high b ≡ true
    → within low high (min_ℤ a b) ≡ true
within_min a b low high h k = ground arith

within_max :
    (a b low high : ℤ)
    → within low high a ≡ true
    → within low high b ≡ true
    → within low high (max_ℤ a b) ≡ true
within_max a b low high h k = ground arith

both : (a b : Bool) → (a && b) ≡ true → (a ≡ true) × (b ≡ true)
both true b h = (refl, h)
both false b h = cc

together : (a b : Bool) → a ≡ true → b ≡ true → (a && b) ≡ true
together a b h k = rw (h, k) refl

-- Both corners of a box are inside another.
pub record Encloses (outer inner : Box) : Type 0 where
  pub has_lo : inside outer inner.lo ≡ true
  pub has_hi : inside outer inner.hi ≡ true

union-inside :
    (b c : Box) (p : Coord)
    → (inside b p ≡ true) ⊎ (inside c p ≡ true)
    → inside (union b c) p ≡ true
unfolding inside union
union-inside b c p (inl h) =
    let (x, y) = both (within b.lo.x b.hi.x p.x) (within b.lo.y b.hi.y p.y) h in
    together (within (min_ℤ b.lo.x c.lo.x) (max_ℤ b.hi.x c.hi.x) p.x)
      (within (min_ℤ b.lo.y c.lo.y) (max_ℤ b.hi.y c.hi.y) p.y)
      (within_first b.lo.x c.lo.x b.hi.x c.hi.x p.x x)
      (within_first b.lo.y c.lo.y b.hi.y c.hi.y p.y y)
union-inside b c p (inr h) =
    let (x, y) = both (within c.lo.x c.hi.x p.x) (within c.lo.y c.hi.y p.y) h in
    together (within (min_ℤ b.lo.x c.lo.x) (max_ℤ b.hi.x c.hi.x) p.x)
      (within (min_ℤ b.lo.y c.lo.y) (max_ℤ b.hi.y c.hi.y) p.y)
      (within_second b.lo.x c.lo.x b.hi.x c.hi.x p.x x)
      (within_second b.lo.y c.lo.y b.hi.y c.hi.y p.y y)

inside-min :
    (d : Box) (p q : Coord) → inside d p ≡ true → inside d q ≡ true → inside d (min p q) ≡ true
unfolding inside min
inside-min d p q h k =
    let (x, y) = both (within d.lo.x d.hi.x p.x) (within d.lo.y d.hi.y p.y) h in
    let (u, v) = both (within d.lo.x d.hi.x q.x) (within d.lo.y d.hi.y q.y) k in
    together (within d.lo.x d.hi.x (min_ℤ p.x q.x)) (within d.lo.y d.hi.y (min_ℤ p.y q.y))
      (within_min p.x q.x d.lo.x d.hi.x x u) (within_min p.y q.y d.lo.y d.hi.y y v)

inside-max :
    (d : Box) (p q : Coord) → inside d p ≡ true → inside d q ≡ true → inside d (max p q) ≡ true
unfolding inside max
inside-max d p q h k =
    let (x, y) = both (within d.lo.x d.hi.x p.x) (within d.lo.y d.hi.y p.y) h in
    let (u, v) = both (within d.lo.x d.hi.x q.x) (within d.lo.y d.hi.y q.y) k in
    together (within d.lo.x d.hi.x (max_ℤ p.x q.x)) (within d.lo.y d.hi.y (max_ℤ p.y q.y))
      (within_max p.x q.x d.lo.x d.hi.x x u) (within_max p.y q.y d.lo.y d.hi.y y v)

-- The sum of two boxes is the smallest box around them: it has the points of both, its corners are in
-- every box that has the corners of both, and its size is that of its corners.
pub union_lem :
    (b c outer : Box) (p : Coord)
    → (inside b p ≡ true) ⊎ (inside c p ≡ true)
    → Encloses outer b
    → Encloses outer c
    → (inside (union b c) p ≡ true)
      × Encloses outer (union b c)
      × (union b c ≡ box_of ((union b c).lo) ((union b c).hi))
unfolding union box_of
union_lem b c outer p h k l = (
  union-inside b c p h,
  record {
    has_lo = inside-min outer b.lo c.lo k.has_lo l.has_lo;
    has_hi = inside-max outer b.hi c.hi k.has_hi l.has_hi;
  },
  refl,
)
