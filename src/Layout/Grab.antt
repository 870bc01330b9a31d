-- ===== src/Layout/Grab.antt =====
-- src/shell/layout/grab.rs: resizing a window with the pointer.
pub mod Edges
pub mod Resize
use electrum.Prelude.{
  ltb, ◌==◌, if◌then◌else◌, length, find, Outcome, ok, panic, ◌>>=◌, unwrap, ℕ, ◌/◌, ◌%◌, Bool, not,
  ◌||◌, Option, none, some, List, [], ◌∷◌,
}
use electrum.Prelude.Int.{ℤ, pos}
use electrum.Smithay.{Window, Serial, resizing, Smithay}
use electrum.Smithay.Geometry.{i32_max, eq_i32, min_i32, max_i32, Size}
use electrum.World.{
  ResizeEdge, ResizeState, is_resizing, waiting_for_final_ack, PointF, pointer_motion,
  pointer_button, unset_grab, World, Env, update, sub_point, emit, set_pending,
}

-- `xdg_toplevel::ResizeEdge`, with its numbers in the protocol.
pub data XdgEdge : Type 0 where
  no_edge top bottom left top_left bottom_left right top_right bottom_right : XdgEdge

abbrev pub number : XdgEdge → ℕ
number no_edge = 0
number top = 1
number bottom = 2
number left = 4
number top_left = 5
number bottom_left = 6
number right = 8
number top_right = 9
number bottom_right = 10

-- `xdg_toplevel::ResizeEdge::try_from`
pub xdg_edge : ℕ → Option XdgEdge
unfolding find
xdg_edge n =
    find (λ x. number x == n)
      (no_edge ∷ top ∷ bottom ∷ left ∷ top_left ∷ bottom_left ∷ right ∷ top_right ∷ bottom_right
        ∷ [])

-- The flags of `ResizeEdge`: one bit for each edge.
abbrev pub top_bit : ℕ
top_bit = 1

abbrev pub bottom_bit : ℕ
bottom_bit = 2

abbrev pub left_bit : ℕ
left_bit = 4

abbrev pub right_bit : ℕ
right_bit = 8

-- `from_bits`: a bit that no flag has is refused.
abbrev pub from_bits : ℕ → Option ResizeEdge
from_bits n = if ltb n 16 then some n else none

abbrev pub has_bit : ResizeEdge → ℕ → Bool
has_bit e bit = e / bit % 2 == 1

pub from_xdg : XdgEdge → Outcome ResizeEdge
from_xdg x = unwrap (from_bits (number x))

pub to_xdg : ResizeEdge → Outcome XdgEdge
to_xdg e = unwrap (xdg_edge e)

-- `intersects(LEFT | RIGHT)` and `intersects(TOP | BOTTOM)`
abbrev pub is_horizontal : ResizeEdge → Bool
is_horizontal e = has_bit e left_bit || has_bit e right_bit

abbrev pub is_vertical : ResizeEdge → Bool
is_vertical e = has_bit e top_bit || has_bit e bottom_bit

module _ (sm : Smithay) where
  -- `ResizeSurfaceGrab`; of the start data the location is used.
  pub record ResizeSurfaceGrab : Type 0 where
    pub start_location : PointF sm
    pub window : Window
    pub edges : ResizeEdge
    pub initial_window_size : Size
    pub last_window_size : Size

-- The limits of a length: at least 1, and no upper limit when it is 0.
pub clamp_axis : ℤ → ℤ → ℤ → ℤ
clamp_axis lo hi length =
    let least = max_i32 lo (pos 1) in
    let most = if eq_i32 hi (pos 0) then pos i32_max else hi in min_i32 (max_i32 length least) most

module _ {sm : Smithay} (env : Env sm) where
  -- The length on one axis when the pointer moved by `delta`: an edge at the start of the axis grows
  -- the window when the pointer moves back.
  pub drag_axis : Bool → Bool → ℤ → sm.Float → ℤ
  drag_axis dragged from_start initial delta =
      if dragged
      then sm.to_i32
          (sm.add_float (sm.of_i32 initial) (if from_start then sm.neg_float delta else delta))
      else initial

  pub new_size : ResizeSurfaceGrab sm → PointF sm → Size
  new_size grab location =
      let delta = sub_point sm location grab.start_location in
      let (lo, hi) = env.cached_sizes grab.window in
      let e = grab.edges in
      record {
        w =
            clamp_axis lo.w hi.w (
              drag_axis (is_horizontal e) (has_bit e left_bit) grab.initial_window_size.w delta.fx);
        h =
            clamp_axis lo.h hi.h
              (drag_axis (is_vertical e) (has_bit e top_bit) grab.initial_window_size.h delta.fy);
      }

  -- `ResizeSurfaceGrab::motion`
  pub resize_motion :
      ResizeSurfaceGrab sm → World sm → PointF sm → Serial → ResizeSurfaceGrab sm × World sm
  resize_motion grab d location serial =
      let d1 = emit d (pointer_motion location none serial) in
      let size = new_size grab location in
      let w = grab.window in
      let p = d.pending w in
      if not (env.alive w) then (grab, emit d1 (unset_grab serial)) else (
        record grab { last_window_size = size },
        set_pending d1 w (record { states = sm.set_state p.states resizing; size = some size }),
      )

  -- The resize state after the last button was released.
  pub finish : Option ResizeState → Serial → Outcome ResizeState
  finish (some (is_resizing resize_data)) serial = ok (waiting_for_final_ack resize_data serial)
  finish _ serial = panic

  -- `ResizeSurfaceGrab::button`; the buttons that are pressed are those that the handle reports after
  -- the event.
  pub resize_button :
      ResizeSurfaceGrab sm → World sm → ℕ → Bool → Serial → List ℕ → Outcome (World sm)
  resize_button grab d button state serial (b ∷ pressed) =
      ok (emit d (pointer_button button state serial))
  resize_button grab d button state serial [] =
      let w = grab.window in
      let p = d.pending w in
      let d1 = emit (emit d (pointer_button button state serial)) (unset_grab serial) in
      let d2 =
        set_pending d1 w (record {
          states = sm.unset_state p.states resizing;
          size = some grab.last_window_size;
        }) in
      if not (env.alive w) then ok d1 else (do
        s ← finish (d.resize_state w) serial
        ok (record d2 { resize_state = update d.resize_state w (some s) }))
