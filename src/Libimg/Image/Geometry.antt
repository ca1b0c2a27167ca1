-- ===== src/Libimg/Image/Geometry.antt =====
-- server/src/libimg/libimgImage.cpp: crop, rotate and flip. What such a function writes to its new
-- buffer from the first byte to the last, or from the last to the first, is the list of those bytes.
pub mod Drawing
pub mod Pixels
pub mod Made
pub mod Rows
pub mod Upside
pub mod Rotate
pub mod Mirrored
pub mod Crop
pub mod Flip
use ozonebase.Prelude.{
  ℕ, zero, suc, ◌+◌, ◌-◌, ◌*◌, ◌%◌, Bool, true, false, ◌&&◌, ◌||◌, none, List, [], ◌++◌, ltb, ◌==◌,
  if◌then◌else◌, ℤ, pos, negsuc, above, difference, ◌-ℤ◌, ◌+ℤ◌, ltb_ℤ, replicate,
}
use ozonebase.Libgen.Outcome.{Outcome, ok, panic, thrown, spent, ◌>>=◌}
use ozonebase.Libgen.Buffer
use ozonebase.Libgen.Buffer.{read_at, write_at}
use ozonebase.Libimg.Raster.{gather, gather_back, slice}
use ozonebase.Libimg.Image.{
  Format, undef, grey, grey16, rgb, rgb48, yuv, yuvj, yuvp, yuvjp, Image, new_image, assign_from,
  bytes_of,
}

-- The bytes of a pixel in a plane.
unfoldable pub pixel : Image → ℕ → ℕ → ℕ → List ℕ
pixel i p x y =
    slice (bytes_of i) (p * i.plane_size + (y * i.stride + x * i.pixel_step)) i.pixel_step

-- An image after bytes were written to it, from the first on.
unfoldable pub drawn : Image → List ℕ → Outcome Image
drawn i bytes = write_at i.buffer.storage i.buffer.head bytes >>= λ stored.
    ok (record i { buffer = record i.buffer { storage = stored } })

-- A new image of the same format, what is drawn in it, and its assignment to the old one.
unfoldable pub redraw : Image → ℕ → ℕ → (Image → Outcome (List ℕ)) → Outcome Image
redraw i width height draw = new_image i.format width height none >>= λ new.
    draw new >>= λ bytes. drawn new bytes >>= λ done. assign_from i done

-- `crop`, for a region inside the image.
unfoldable pub crop_region : Image → ℕ → ℕ → ℕ → ℕ → Outcome (Bool × Image)
crop_region i lo_x lo_y new_width new_height =
    if (new_width == i.width) && (new_height == i.height)
    then ok (true, i)
    else (redraw i new_width new_height (λ new. gather i.planes (λ c. gather new_height (λ ny.
          read_at (bytes_of i) (c * i.plane_size + ((lo_y + ny) * i.width + lo_x) * i.pixel_step)
            new.stride)))
        >>= λ j. ok (true, j))

unfoldable pub crop : Image → ℤ → ℤ → ℤ → ℤ → Outcome (Bool × Image)
crop i lo_x lo_y hi_x hi_y =
    if ltb_ℤ hi_x lo_x || ltb_ℤ hi_y lo_y
    then ok (false, i)
    else if (ltb_ℤ lo_x (pos 0) || ltb_ℤ (difference i.width 1) hi_x)
        || (ltb_ℤ lo_y (pos 0) || ltb_ℤ (difference i.height 1) hi_y)
    then ok (false, i)
    else crop_region i (above lo_x) (above lo_y) (above ((hi_x -ℤ lo_x) +ℤ pos 1))
        (above ((hi_y -ℤ lo_y) +ℤ pos 1))

-- `rotate` by 180 degrees: each plane is filled from its end.
unfoldable pub rotate_half : Image → Outcome Image
rotate_half i =
    gather i.planes (λ p. gather_back i.height (λ y. gather_back i.width (λ x.
      read_at (bytes_of i) (p * i.plane_size + (y * i.width + x) * i.pixel_step) i.pixel_step)))
    >>= λ bytes. write_at (replicate i.size 0) 0 bytes >>= λ rotated.
        Buffer.assign i.buffer rotated >>= λ r. ok (record i { buffer = r.1 })

-- The branches of `flip`. Left to right, of an image in one plane: rows while the next one's end is
-- before the end of the image.
unfoldable pub flip_rows : ℕ → Image → ℕ → Outcome (List ℕ)
flip_rows zero i src = spent
flip_rows (suc fuel) i src =
    let row =
      gather i.width (λ x. read_at (bytes_of i) (src - (x + 1) * i.pixel_step) i.pixel_step) in
    let next : ℕ = src - i.width * i.pixel_step + 2 * i.stride in
    let rest = flip_rows fuel i next in
    if ltb src i.buffer.size then (row >>= λ r. rest >>= λ o. ok (r ++ o)) else ok []

-- Left to right, of an image in planes of single bytes.
unfoldable pub flip_plane_rows : Image → Outcome (List ℕ)
flip_plane_rows i = gather i.planes (λ p. gather i.height (λ y.
    gather i.width (λ x.
      read_at (bytes_of i) (i.stride + p * (i.stride * i.height) + y * i.stride - (x + 1)) 1)))

-- Top to bottom, of an image in one plane: rows while there is one in front.
unfoldable pub flip_up : ℕ → Image → ℕ → Outcome (List ℕ)
flip_up zero i src = spent
flip_up (suc fuel) i src =
    let row = read_at (bytes_of i) (src - i.stride) i.stride in
    let rest = flip_up fuel i (src - i.stride) in
    if ltb 0 src then (row >>= λ r. rest >>= λ o. ok (r ++ o)) else ok []

-- Top to bottom, of an image in planes.
unfoldable pub flip_planes_up : Image → Outcome (List ℕ)
flip_planes_up i = gather i.planes (λ p. gather i.height (λ y.
    read_at (bytes_of i) (i.height * i.stride + p * (i.height * i.stride) - (y + 1) * i.stride)
      i.stride))

abbrev pub flip_packed : Bool → Image → Outcome (List ℕ)
flip_packed true i = flip_rows (suc i.buffer.size) i i.stride
flip_packed false i = flip_up (suc (i.height * i.stride)) i (i.height * i.stride)

abbrev pub flip_planar : Bool → Image → Outcome (List ℕ)
flip_planar true i = flip_plane_rows i
flip_planar false i = flip_planes_up i

-- `flip`, by the format: what it writes.
abbrev pub flip_bytes : Format → Bool → Image → Outcome (List ℕ)
flip_bytes undef left_right i = thrown
flip_bytes grey left_right i = flip_packed left_right i
flip_bytes grey16 left_right i = flip_packed left_right i
flip_bytes rgb left_right i = flip_packed left_right i
flip_bytes rgb48 left_right i = flip_packed left_right i
flip_bytes yuv left_right i = flip_packed left_right i
flip_bytes yuvj left_right i = flip_packed left_right i
flip_bytes yuvp left_right i = flip_planar left_right i
flip_bytes yuvjp left_right i = flip_planar left_right i

unfoldable pub flip : Image → Bool → Outcome Image
flip i left_right = flip_bytes i.format left_right i >>= λ bytes.
    write_at (replicate i.buffer.size 0) 0 bytes >>= λ flipped.
    Buffer.assign i.buffer flipped >>= λ r. ok (record i { buffer = r.1 })
