-- ===== src/Libimg/Box.antt =====
-- server/src/libimg/libimgBox.h: boxes between two corners, with their size. The centre, which goes
-- through floating point, is left out.
pub mod Union
use ozonebase.Prelude.{Bool, not, ◌&&◌, ℤ, pos, ◌-ℤ◌, ltb_ℤ}
use ozonebase.Libimg.Coord.{Coord, range, max, min, multiply, ◌*ℤ◌}

pub record Box : Type 0 where
  pub lo : Coord
  pub hi : Coord
  pub size : Coord

-- The constructor from two corners, and the one from a width and a height.
unfoldable pub box_of : Coord → Coord → Box
box_of lo hi = record { lo = lo; hi = hi; size = range hi lo }

unfoldable pub sized : ℤ → ℤ → Box
unfolding box_of
sized width height =
    box_of (record { x = pos 0; y = pos 0 }) (record { x = width -ℤ pos 1; y = height -ℤ pos 1 })

unfoldable pub area : Box → ℤ
area b = b.size.x *ℤ b.size.y

unfoldable pub inside : Box → Coord → Bool
inside b c =
    not (ltb_ℤ c.x b.lo.x)
    && not (ltb_ℤ b.hi.x c.x)
    && (not (ltb_ℤ c.y b.lo.y) && not (ltb_ℤ b.hi.y c.y))

-- `operator+`, the smallest box around two.
unfoldable pub union : Box → Box → Box
unfolding min max
union b c = record {
  lo = min b.lo c.lo;
  hi = max b.hi c.hi;
  size = range (max b.hi c.hi) (min b.lo c.lo);
}

-- `operator*`.
unfoldable pub magnify : Box → ℤ → Box
magnify b factor = record {
  lo = multiply b.lo factor;
  hi = multiply b.hi factor;
  size = multiply b.size factor;
}
