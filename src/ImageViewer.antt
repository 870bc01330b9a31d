-- ===== src/ImageViewer.antt =====
-- src/bin/image.rs: the client that shows images, for tests by hand. The pool of shared memory, the
-- resizing of images and the surfaces are libraries.
pub mod Pixels
pub mod Draw
use electrum.Prelude.{
  ◌==◌, if◌then◌else◌, retain, Outcome, ok, panic, ◌>>=◌, unwrap, ℕ, ◌+◌, ◌*◌, ◌%◌, ◌^◌, Bool, true,
  false, not, ◌&&◌, ◌||◌, Option, none, some, List, [], ◌∷◌, ◌++◌, map,
}
use electrum.Prelude.Int.{ℤ, pos, ◌*ℤ◌}
use electrum.Smithay.Geometry.{wrap_i32}

-- A pixel of an RGBA image, and four bytes of a canvas.
pub record Pixel : Type 0 where
  pub red : ℕ
  pub green : ℕ
  pub blue : ℕ
  pub alpha : ℕ

pub record Chunk : Type 0 where
  pub byte0 : ℕ
  pub byte1 : ℕ
  pub byte2 : ℕ
  pub byte3 : ℕ

pub record Image : Type 0 where
  pub image_width : ℕ
  pub image_height : ℕ
  pub pixels : List Pixel

pub record ImageViewer : Type 0 where
  pub window : ℕ
  pub image : Image
  pub width : ℕ
  pub height : ℕ
  pub buffer : Option ℕ
  pub first_configure : Bool
  pub damaged : Bool

-- The requests that a draw makes of a window's surface.
pub data Call : Type 0 where
  damage_buffer : ℕ → ℤ → ℤ → Call
  request_frame commit : ℕ → Call
  attach : ℕ → ℕ → Call

-- What the libraries do. A new buffer comes with its canvas; the canvas of a buffer that the
-- compositor still reads cannot be had.
pub record Toolkit : Type 1 where
  pub Pool : Type 0
  pub create_buffer : Pool → ℤ → ℤ → ℤ → Option (ℕ × List Chunk × Pool)
  pub canvas : Pool → ℕ → Option (List Chunk)
  pub put_canvas : Pool → ℕ → List Chunk → Pool
  pub resize : Image → ℕ → ℕ → List Pixel
  pub frames : ℕ → Bool
  pub attaches : Pool → ℕ → ℕ → Bool

-- `pool_size += image.width() * image.height() * 4`, over `u32`.
pub pool_size : List Image → ℕ
pool_size [] = 0
pool_size (i ∷ is) = (i.image_width * i.image_height * 4 + pool_size is) % 2 ^ 32

-- The viewer of an image whose window was just made.
abbrev pub new_viewer : ℕ → Image → ImageViewer
new_viewer w i = record {
  window = w;
  image = i;
  width = i.image_width;
  height = i.image_height;
  buffer = none;
  first_configure = true;
  damaged = true;
}

-- The bytes of one pixel, as `argb` is written.
abbrev pub to_chunk : Pixel → Chunk
to_chunk p = record { byte0 = p.blue; byte1 = p.green; byte2 = p.red; byte3 = p.alpha }

-- `image.pixels().zip(canvas.chunks_exact_mut(4))`
unfoldable pub fill : List Pixel → List Chunk → List Chunk
fill [] canvas = canvas
fill (p ∷ ps) [] = []
fill (p ∷ ps) (c ∷ canvas) = to_chunk p ∷ fill ps canvas

-- `request_close`
pub request_close : ℕ → List ImageViewer → List ImageViewer
request_close w viewers = retain (λ v. not (v.window == w)) viewers

-- `as i32` from a `u32`
abbrev pub as_i32 : ℕ → ℤ
as_i32 n = wrap_i32 (pos n)

-- What `configure` does to one viewer.
unfoldable pub configured : ℕ → Option (ℕ × ℕ) → ImageViewer → ImageViewer
configured w new_size v =
    let resized : ImageViewer = elim new_size [
      | none ↦ v
      | some size ↦ record v { width = size.0; height = size.1; buffer = none; damaged = true }
    ] in
    if v.window == w then record resized { first_configure = false } else v

module _ (k : Toolkit) where
  -- `viewer.buffer.get_or_insert_with(..)`
  pub get_buffer : k.Pool → ImageViewer → ℤ → Outcome (ℕ × k.Pool)
  get_buffer pool v stride = elim v.buffer [
    | some b ↦ ok (b, pool)
    | none ↦ do
      (b, _, pool') ← unwrap (k.create_buffer pool (as_i32 v.width) (as_i32 v.height) stride)
      ok (b, pool')
  ]

  -- `match pool.canvas(buffer)`: a second buffer takes the place of one that is in use.
  pub get_canvas : k.Pool → ImageViewer → ℤ → ℕ → Outcome (ℕ × List Chunk × k.Pool)
  get_canvas pool v stride b = elim (k.canvas pool b) [
    | some c ↦ ok (b, c, pool)
    | none ↦ unwrap (k.create_buffer pool (as_i32 v.width) (as_i32 v.height) stride)
  ]

  -- `viewer.first_configure || !viewer.damaged`
  abbrev pub is_skipped : ImageViewer → Bool
  is_skipped v = v.first_configure || not v.damaged

  -- The requests of a viewer that was drawn, in their order.
  abbrev pub calls_of : ImageViewer → ℕ → List Call
  calls_of v b =
      damage_buffer v.window (as_i32 v.width) (as_i32 v.height)
      ∷ request_frame v.window
      ∷ attach v.window b
      ∷ commit v.window
      ∷ []

  -- One round of the loop in `draw`, for a viewer that is drawn.
  pub draw_viewer : Option k.Pool → ImageViewer → Outcome (k.Pool × ImageViewer × List Call)
  draw_viewer pool v = do
    let stride = wrap_i32 (as_i32 v.width *ℤ pos 4)
    p ← unwrap pool
    (b, p1) ← get_buffer p v stride
    (b', canvas, p2) ← get_canvas p1 v stride b
    let p3 = k.put_canvas p2 b' (fill (k.resize v.image v.width v.height) canvas)
    if k.frames v.window && k.attaches p3 b' v.window
        then ok (p3, record v { buffer = some b'; damaged = false }, calls_of v b')
        else panic

  -- `State::draw`
  pub draw :
      Option k.Pool → List ImageViewer → Outcome (Option k.Pool × List ImageViewer × List Call)
  draw pool [] = ok (pool, [], [])
  draw pool (v ∷ vs) =
      if is_skipped v
      then (do (pool', vs', calls) ← draw pool vs; ok (pool', v ∷ vs', calls))
      else (do
        (p, v', calls) ← draw_viewer pool v
        (pool', vs', more) ← draw (some p) vs
        ok (pool', v' ∷ vs', calls ++ more))

  -- `configure`
  pub configure :
      Option k.Pool
      → List ImageViewer
      → ℕ
      → Option (ℕ × ℕ)
      → Outcome (Option k.Pool × List ImageViewer × List Call)
  configure pool viewers w new_size = draw pool (map (configured w new_size) viewers)
