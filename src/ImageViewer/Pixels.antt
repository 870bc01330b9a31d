-- ===== src/ImageViewer/Pixels.antt =====
-- src/bin/image.rs: what the compositor reads from a canvas that was filled with an image.
use electrum.Prelude.{
  length, All, drop_first, ℕ, ◌+◌, ◌*◌, ◌/◌, ◌%◌, ◌^◌, ◌≤◌, ◌<◌, ◌≡◌, refl, List, [], ◌∷◌, ◌++◌,
  map, arith,
}
use electrum.ImageViewer.{Pixel, Chunk, to_chunk, fill}

-- The 32-bit word of four bytes, in little-endian order.
unfoldable pub word : Chunk → ℕ
word c = c.byte0 + c.byte1 * 2 ^ 8 + c.byte2 * 2 ^ 16 + c.byte3 * 2 ^ 24

-- The format Argb8888: alpha in the highest byte of the word, then red, green and blue.
unfoldable pub from_argb8888 : ℕ → Pixel
from_argb8888 n = record {
  red = n / 2 ^ 16 % 2 ^ 8;
  green = n / 2 ^ 8 % 2 ^ 8;
  blue = n % 2 ^ 8;
  alpha = n / 2 ^ 24 % 2 ^ 8;
}

-- The components of a pixel are bytes.
pub record IsRgba8 (p : Pixel) : Type 0 where
  pub red : p.red < 2 ^ 8
  pub green : p.green < 2 ^ 8
  pub blue : p.blue < 2 ^ 8
  pub alpha : p.alpha < 2 ^ 8

pixel_eq :
    (p q : Pixel) → p.red ≡ q.red → p.green ≡ q.green → p.blue ≡ q.blue → p.alpha ≡ q.alpha → p ≡ q
pixel_eq p q r g b a = λ i. record { red = r i; green = g i; blue = b i; alpha = a i }

from_argb8888-word : (p : Pixel) → IsRgba8 p → from_argb8888 (word (to_chunk p)) ≡ p
unfolding from_argb8888 word
from_argb8888-word p rgba =
    pixel_eq (from_argb8888 (word (to_chunk p))) p (omega arith) (omega arith) (omega arith)
      (omega arith)

-- An image that fits into a canvas is read back from the canvas, as little-endian Argb8888, pixel by
-- pixel; the rest of the canvas is left as it was.
pub from_argb8888-fill :
    (image : List Pixel) (canvas : List Chunk)
    → All IsRgba8 image
    → length image ≤ length canvas
    → map (λ c. from_argb8888 (word c)) (fill image canvas)
      ≡ image ++ map (λ c. from_argb8888 (word c)) (drop_first (length image) canvas)
unfolding fill
from_argb8888-fill [] canvas rgba fits = refl
from_argb8888-fill (p ∷ image) [] rgba fits = ground arith
from_argb8888-fill (p ∷ image) (c ∷ canvas) (rgba, more) fits =
    rw (from_argb8888-word p rgba, from_argb8888-fill image canvas more (omega arith)) refl
