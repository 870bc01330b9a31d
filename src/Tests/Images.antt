-- ===== src/Tests/Images.antt =====
-- src/bin/image.rs at a concrete toolkit.
use electrum.Prelude.{
  retain, ok, Returns, ℕ, ◌+◌, ◌≡◌, refl, true, false, some, List, [], ◌∷◌, map, arith,
}
use electrum.ImageViewer.{Pixel, Chunk, Image, ImageViewer, Toolkit, new_viewer, fill, draw}
use electrum.ImageViewer.Pixels.{word, from_argb8888, IsRgba8, from_argb8888-fill}
use electrum.ImageViewer.Draw.{committed, Works, draw-settles}

abbrev orange : Pixel
orange = record { red = 255; green = 128; blue = 7; alpha = 200 }

abbrev clear : Chunk
clear = record { byte0 = 0; byte1 = 0; byte2 = 0; byte3 = 0 }

orange-IsRgba8 : IsRgba8 orange
orange-IsRgba8 = record {
  red = ground arith;
  green = ground arith;
  blue = ground arith;
  alpha = ground arith;
}

from_argb8888-fill_example :
    map (λ c. from_argb8888 (word c)) (fill (orange ∷ orange ∷ []) (clear ∷ clear ∷ clear ∷ []))
    ≡ orange ∷ orange ∷ map (λ c. from_argb8888 (word c)) (clear ∷ [])
from_argb8888-fill_example =
    from_argb8888-fill (orange ∷ orange ∷ []) (clear ∷ clear ∷ clear ∷ [])
      (orange-IsRgba8, (orange-IsRgba8, tt)) (ground arith)

-- Buffers are numbered, and none is in use.
abbrev toolkit : Toolkit
toolkit = record {
  Pool = ℕ;
  create_buffer = λ p w h s. some (p, clear ∷ [], p + 1);
  canvas = λ p b. some (clear ∷ []);
  put_canvas = λ p b c. p;
  resize = λ i w h. i.pixels;
  frames = λ w. true;
  attaches = λ p b w. true;
}

toolkit-Works : Works toolkit
toolkit-Works = record {
  creates = λ p w h s. ((p, clear ∷ [], p + 1), refl);
  frames = λ w. refl;
  attaches = λ p b w. refl;
}

abbrev picture : Image
picture = record { image_width = 1; image_height = 1; pixels = orange ∷ [] }

-- Window 4 is not configured yet.
abbrev viewers : List ImageViewer
viewers =
    record (new_viewer 3 picture) { first_configure = false }
    ∷ new_viewer 4 picture
    ∷ record (new_viewer 5 picture) { first_configure = false }
    ∷ []

draw-settles_example :
    Returns
      (λ r.
        (committed r.2 ≡ 3 ∷ 5 ∷ [])
        × (map (λ v. v.window) r.1 ≡ 3 ∷ 4 ∷ 5 ∷ [])
        × (draw toolkit r.0 r.1 ≡ ok (r.0, r.1, [])))
      (draw toolkit (some 0) viewers)
unfolding retain
draw-settles_example = draw-settles toolkit toolkit-Works viewers 0
