-- ===== src/Libimg.antt =====
-- server/src/libimg: the image library.
pub mod Coord
pub mod Box
pub mod Colour
pub mod Raster
pub mod Image
