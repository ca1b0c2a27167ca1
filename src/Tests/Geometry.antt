-- ===== src/Tests/Geometry.antt =====
-- Boxes at work.
use ozonebase.Prelude.{pos}
use ozonebase.Libimg.Coord.{Coord}
use ozonebase.Libimg.Box.{Box, box_of}

abbrev at : Coord
at = record { x = pos 2; y = pos 3 }

abbrev origin : Coord
origin = record { x = pos 0; y = pos 0 }

abbrev far : Coord
far = record { x = pos 9; y = pos 9 }

abbrev left : Box
left = box_of origin at

abbrev right : Box
right = box_of at far

abbrev all : Box
all = box_of origin far
