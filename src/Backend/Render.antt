-- ===== src/Backend/Render.antt =====
-- src/backend/renderer/mod.rs: the frame of an output that one window fills.
pub mod Order
use electrum.Prelude.{
  if◌then◌else◌, Outcome, ok, ◌>>=◌, unwrap, ℕ, Bool, Option, none, some, List, [], ◌∷◌, ◌++◌, map,
}
use electrum.Prelude.Int.{◌+ℤ◌}
use electrum.Smithay.{Window, WlSurface, LayerSurface, Output, Smithay}
use electrum.Smithay.Geometry.{wrap_i32, Point, Size, Rectangle}
use electrum.World.{PointF, Env}
use electrum.World.Layers.{Layer, overlay}
use electrum.Shell.{Shell}
use electrum.Backend.{window_alone, whole_desktop, choose_drawn}

module _ (sm : Smithay) where
  -- One call that draws, each of which may fail.
  pub data DrawCall : Type 0 where
    clear_frame : Size → DrawCall
    draw_window draw_window_popups : Window → DrawCall
    draw_layer_surface draw_layer_popups : LayerSurface → PointF sm → DrawCall
    draw_element : ℕ → PointF sm → DrawCall

  -- What the renderer and smithay's desktop answer while a frame is drawn. An element is known by
  -- its number.
  pub record Renderer : Type 0 where
    pub call_fails : DrawCall → Bool
    pub finishes : Bool
    pub layers_on : Output → Layer → List LayerSurface
    pub to_physical : Point → sm.Scale → PointF sm
    pub window_damage : Window → sm.Scale → List Rectangle
    pub damage_from_surface_tree : WlSurface → PointF sm → sm.Scale → List Rectangle
    pub element_location : ℕ → sm.Scale → PointF sm
    pub element_geometry : ℕ → sm.Scale → Rectangle
    pub element_damage : ℕ → sm.Scale → List Rectangle
    -- `Space::render_output`
    pub render_space : Output → ℕ → List ℕ → Option (List Rectangle)

  -- The calls that were made, in their order, and the damage unless one of them failed.
  abbrev pub Frame : Type 0
  Frame = List DrawCall × Option (List Rectangle)

-- `rect.loc += geo.loc`
abbrev pub moved_by : Point → Rectangle → Rectangle
moved_by p r = record r {
  loc = record { x = wrap_i32 (r.loc.x +ℤ p.x); y = wrap_i32 (r.loc.y +ℤ p.y) };
}

-- `cursor_custom_elements`
pub cursor_custom_elements : List ℕ
cursor_custom_elements = []

module _ {sm : Smithay} (env : Env sm) (r : Renderer sm) where
  -- A call with `?` behind it.
  abbrev pub call :
      DrawCall sm
      → List (DrawCall sm)
      → (List (DrawCall sm) → Outcome (Frame sm))
      → Outcome (Frame sm)
  call c calls next = if r.call_fails c then ok (calls ++ c ∷ [], none) else next (calls ++ c ∷ [])

  -- The loop over the custom elements.
  pub draw_elements : List ℕ → sm.Scale → List Rectangle → List (DrawCall sm) → Outcome (Frame sm)
  draw_elements [] scale damage calls = ok (calls, some damage)
  draw_elements (e ∷ es) scale damage calls =
      call (draw_element e (r.element_location e scale)) calls (
        draw_elements es scale
          (damage ++ map (moved_by (r.element_geometry e scale).loc) (r.element_damage e scale)))

  -- The loop over the layer surfaces in front, then the custom elements.
  unfoldable pub draw_layers :
      Output
      → sm.Scale
      → List LayerSurface
      → List Rectangle
      → List (DrawCall sm)
      → Outcome (Frame sm)
  draw_layers o scale [] damage calls = draw_elements cursor_custom_elements scale damage calls
  draw_layers o scale (l ∷ ls) damage calls = do
    geo ← unwrap (env.layer_geometry o l)
    let at = r.to_physical geo.loc scale
    let tree = r.damage_from_surface_tree (env.layer_wl_surface l) at scale
    let later = draw_layers o scale ls (damage ++ tree)
    call (draw_layer_surface l at) calls (λ done. call (draw_layer_popups l at) done later)

  -- `render_window`, by whether the renderer begins the frame; what it draws is shown unless a call
  -- fails, and the frame has to be finished.
  unfoldable pub render_window : Output → Window → Bool → Outcome (Frame sm)
  render_window o w begins = do
    mode ← unwrap (env.current_mode o)
    let scale = env.fractional_scale o
    let drawn = call (clear_frame mode) [] (λ c1. call (draw_window w) c1 (λ c2.
        call (draw_window_popups w) c2
          (draw_layers o scale (r.layers_on o Layer.overlay) (r.window_damage w scale))))
    if begins
        then (do (calls, damage) ← drawn; ok (calls, if r.finishes then damage else none))
        else ok ([], none)

  -- `renderer::render_output` and `render_desktop`
  unfoldable pub render_frame : Shell sm → Output → ℕ → Bool → Outcome (Frame sm)
  render_frame sh o age begins = do
    drawn ← choose_drawn env sh o
    elim drawn [
      | window_alone w ↦ render_window o w begins
      | whole_desktop ↦ ok ([], r.render_space o age cursor_custom_elements)
    ]
