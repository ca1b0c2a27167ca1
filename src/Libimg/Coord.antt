-- ===== src/Libimg/Coord.antt =====
-- server/src/libimg/libimgCoord.h: points with whole coordinates. The coordinates are taken to be small
-- enough for an int to hold their sums and products.
use ozonebase.Prelude.{
  Bool, not, ◌&&◌, ◌||◌, if◌then◌else◌, ℤ, pos, above, below, difference, ◌+ℤ◌, ◌-ℤ◌, ltb_ℤ, ◌+◌,
  ◌*◌,
}

pub record Coord : Type 0 where
  pub x : ℤ
  pub y : ℤ

infixl 70 ◌*ℤ◌
abbrev pub ◌*ℤ◌ : ℤ → ℤ → ℤ
a *ℤ b = difference (above a * above b + below a * below b) (above a * below b + below a * above b)

abbrev pub max_ℤ : ℤ → ℤ → ℤ
max_ℤ a b = if ltb_ℤ b a then a else b

abbrev pub min_ℤ : ℤ → ℤ → ℤ
min_ℤ a b = if ltb_ℤ a b then a else b

abbrev pub eq_ℤ : ℤ → ℤ → Bool
eq_ℤ a b = not (ltb_ℤ a b || ltb_ℤ b a)

-- `Coord::range`: how many points there are from the second to the first, in each direction.
unfoldable pub range : Coord → Coord → Coord
range a b = record { x = (a.x -ℤ b.x) +ℤ pos 1; y = (a.y -ℤ b.y) +ℤ pos 1 }

unfoldable pub max : Coord → Coord → Coord
max a b = record { x = max_ℤ a.x b.x; y = max_ℤ a.y b.y }

unfoldable pub min : Coord → Coord → Coord
min a b = record { x = min_ℤ a.x b.x; y = min_ℤ a.y b.y }

-- The comparing operators; `>=` and `<=` are the negations of `<` and `>`.
unfoldable pub is_equal : Coord → Coord → Bool
is_equal a b = eq_ℤ a.x b.x && eq_ℤ a.y b.y

unfoldable pub is_less : Coord → Coord → Bool
is_less a b = ltb_ℤ a.x b.x && ltb_ℤ a.y b.y

unfoldable pub is_greater : Coord → Coord → Bool
is_greater a b = ltb_ℤ b.x a.x && ltb_ℤ b.y a.y

unfoldable pub is_at_least : Coord → Coord → Bool
unfolding is_less
is_at_least a b = not (is_less a b)

unfoldable pub is_at_most : Coord → Coord → Bool
unfolding is_greater
is_at_most a b = not (is_greater a b)

unfoldable pub add : Coord → Coord → Coord
add a b = record { x = a.x +ℤ b.x; y = a.y +ℤ b.y }

unfoldable pub subtract : Coord → Coord → Coord
subtract a b = record { x = a.x -ℤ b.x; y = a.y -ℤ b.y }

unfoldable pub multiply : Coord → ℤ → Coord
multiply a factor = record { x = a.x *ℤ factor; y = a.y *ℤ factor }
