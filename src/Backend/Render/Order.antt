-- ===== src/Backend/Render/Order.antt =====
-- src/backend/renderer/mod.rs: what a frame of one window draws, and in which order.
use mathlib.Core.List.{append-nil, append_assoc}
use electrum.Prelude.{
  if◌then◌else◌, Bool-cases, All, ok, ◌≡◌, refl, ◌∙◌, inl, inr, Bool, true, false, ◌&&◌, Option,
  none, some, List, [], ◌∷◌, ◌++◌, arith,
}
use electrum.Smithay.{Window, LayerSurface, Output, Smithay}
use electrum.Smithay.Geometry.{Size, Rectangle}
use electrum.World.{PointF, Env}
use electrum.World.Layers.{Layer}
use electrum.Backend.Render.{
  DrawCall, clear_frame, draw_window, draw_window_popups, draw_layer_surface, draw_layer_popups,
  Renderer, cursor_custom_elements, draw_elements, draw_layers, render_window,
}

module _ {sm : Smithay} (env : Env sm) (r : Renderer sm) where
  -- Calls up to the first that fails, and whether none did.
  unfoldable pub until_failure : List (DrawCall sm) → List (DrawCall sm) × Bool
  until_failure [] = ([], true)
  until_failure (c ∷ cs) =
      let rest = until_failure cs in
      if r.call_fails c then (c ∷ [], false) else (c ∷ rest.0, rest.1)

  module _ (o : Output) (geo : LayerSurface → Rectangle) where
    -- Where a layer surface is drawn, when its output has the place `geo` for it.
    abbrev pub place : LayerSurface → PointF sm
    place l = r.to_physical (geo l).loc (env.fractional_scale o)

    -- The specification: the layer surfaces in their order, each with its popups.
    abbrev pub layer_calls : List LayerSurface → List (DrawCall sm)
    layer_calls [] = []
    layer_calls (l ∷ ls) =
        draw_layer_surface l (place l) ∷ draw_layer_popups l (place l) ∷ layer_calls ls

    abbrev pub layer_damage : List LayerSurface → List Rectangle
    layer_damage [] = []
    layer_damage (l ∷ ls) =
        r.damage_from_surface_tree (env.layer_wl_surface l) (place l) (env.fractional_scale o)
        ++ layer_damage ls

    abbrev pub if_all : Bool → List Rectangle → Option (List Rectangle)
    if_all all_drawn damage = if all_drawn then some damage else none

    draw_layers-until_failure :
        (ls : List LayerSurface) (damage : List Rectangle) (calls : List (DrawCall sm))
        → All (λ l. env.layer_geometry o l ≡ some (geo l)) ls
        → draw_layers env r o (env.fractional_scale o) ls damage calls
          ≡ ok (
            calls ++ (until_failure (layer_calls ls)).0,
            if_all (until_failure (layer_calls ls)).1 (damage ++ layer_damage ls),
          )
    unfolding draw_layers until_failure draw_elements cursor_custom_elements
    draw_layers-until_failure [] damage calls places = rw (append-nil calls, append-nil damage) refl
    draw_layers-until_failure (l ∷ ls) damage calls (e, places) =
        let at = place l in
        let tree =
          r.damage_from_surface_tree (env.layer_wl_surface l) at (env.fractional_scale o) in
        let later =
          draw_layers-until_failure ls (damage ++ tree)
            ((calls ++ draw_layer_surface l at ∷ []) ++ draw_layer_popups l at ∷ []) places in
        elim (Bool-cases (r.call_fails (draw_layer_surface l at))) [
          | inl f ↦ rw (draw_layers, e) (rw f refl)
          | inr f ↦ elim (Bool-cases (r.call_fails (draw_layer_popups l at))) [
            | inl g ↦
                rw (draw_layers, e)
                  (rw (f, g)
                    (rw
                      (append_assoc calls (draw_layer_surface l at ∷ [])
                        (draw_layer_popups l at ∷ []))
                      refl))
            | inr g ↦
                rw (draw_layers, e)
                  (rw (f, g)
                    (later
                      ∙ rw
                          (
                            append_assoc (calls ++ draw_layer_surface l at ∷ [])
                                (draw_layer_popups l at ∷ []) (until_failure (layer_calls ls)).0,
                            append_assoc calls (draw_layer_surface l at ∷ [])
                                (draw_layer_popups l at ∷ (until_failure (layer_calls ls)).0),
                            append_assoc damage tree (layer_damage ls),
                          )
                          refl))
          ]
        ]

    -- The whole frame: the background, the window, its popups, then the layer surfaces in front.
    abbrev pub frame_calls : Size → Window → List (DrawCall sm)
    frame_calls mode w =
        clear_frame mode
        ∷ draw_window w
        ∷ draw_window_popups w
        ∷ layer_calls (r.layers_on o Layer.overlay)

    -- A frame of one window, once begun, draws the background, the window, its popups and then the layer surfaces
    -- of the overlay layer in their order, each with its popups. It draws as far as the first call
    -- that fails, and reports the damage of the window and of all the layer surfaces if none does
    -- and the frame can be finished, and otherwise an error. It does not panic on an output with a
    -- mode whose layer surfaces have places.
    pub render_window-until_failure :
        (mode : Size) (w : Window)
        → env.current_mode o ≡ some mode
        → All (λ l. env.layer_geometry o l ≡ some (geo l)) (r.layers_on o Layer.overlay)
        → render_window env r o w true
          ≡ ok (
            (until_failure (frame_calls mode w)).0,
            if_all ((until_failure (frame_calls mode w)).1 && r.finishes) (
                r.window_damage w (env.fractional_scale o)
                ++ layer_damage (r.layers_on o Layer.overlay)),
          )
    unfolding render_window until_failure
    render_window-until_failure mode w has_mode places =
        let layers = r.layers_on o Layer.overlay in
        let draws =
          draw_layers-until_failure layers (r.window_damage w (env.fractional_scale o))
            (clear_frame mode ∷ draw_window w ∷ draw_window_popups w ∷ []) places in
        elim (Bool-cases (r.call_fails (clear_frame mode))) [
          | inl f ↦ rw (render_window, has_mode) (rw f (ground arith))
          | inr f ↦ elim (Bool-cases (r.call_fails (draw_window w))) [
            | inl g ↦ rw (render_window, has_mode) (rw (f, g) (ground arith))
            | inr g ↦ elim (Bool-cases (r.call_fails (draw_window_popups w))) [
              | inl h ↦ rw (render_window, has_mode) (rw (f, g, h) (ground arith))
              | inr h ↦ rw (render_window, has_mode) (rw (f, g, h) (rw draws (ground arith)))
            ]
          ]
        ]
