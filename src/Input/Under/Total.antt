-- ===== src/Input/Under/Total.antt =====
-- src/input/mod.rs: the lookups below the pointer always run through.
use electrum.Prelude.{Bool-cases, Option-cases, ok, ◌≡◌, refl, ◌∙◌, inl, inr, Option, none, some}
use electrum.Smithay.{WlSurface, LayerSurface, Output, Smithay}
use electrum.Smithay.Geometry.{Point, Rectangle}
use electrum.World.{PointF, Env, sub_point, point_to_f64, to_i32_round}
use electrum.World.Layers.{Layer}
use electrum.Workspace.{Workspace, get_fullscreen}
use electrum.Input.Under.{
  add_loc, shift, root_if, either_layer, layer_hit, layer_surface_at, behind_top, surface_under,
  layer_focus, focus_behind_top, focus_under,
}

module _ {sm : Smithay} (env : Env sm) where
  -- An output's layer map knows the place of every layer surface that it finds at a point.
  pub record LayersHavePlaces : Type 0 where
    pub has_place :
        (o : Output) (layer : Layer) (p : PointF sm) (l : LayerSurface)
        → env.layer_under o layer p ≡ some l
        → (g : Rectangle) × (env.layer_geometry o l ≡ some g)

  module _ (places : LayersHavePlaces) where
    either_layer_place :
        (o : Output) (a b : Layer) (p : PointF sm) (l : LayerSurface)
        → either_layer env o a b p ≡ some l
        → (g : Rectangle) × (env.layer_geometry o l ≡ some g)
    either_layer_place o a b p l e = elim (Option-cases (env.layer_under o a p)) [
      | inl f ↦ places.has_place o b p l (rw (either_layer, f) at e)
      | inr (k, f) ↦ places.has_place o a p l (f ∙ (rw (either_layer, f) at e))
    ]

    layer_surface_at_total :
        (o : Output) (l : LayerSurface) (p : PointF sm) (geo g : Rectangle)
        → env.layer_geometry o l ≡ some g
        → (under : Option (WlSurface × Point)) × (layer_surface_at env o l p geo ≡ ok under)
    unfolding layer_surface_at layer_hit
    layer_surface_at_total o l p geo g e = (
      shift geo.loc (
          shift g.loc (
            env.layer_surface_under l
              (sub_point sm (sub_point sm p (point_to_f64 sm geo.loc)) (point_to_f64 sm g.loc)))),
      rw (layer_surface_at, layer_hit, e) refl,
    )

    layer_focus_total :
        (o : Output) (l : LayerSurface) (p : PointF sm) (geo g : Rectangle)
        → env.layer_geometry o l ≡ some g
        → (under : Option WlSurface) × (layer_focus env o l p geo ≡ ok under)
    unfolding layer_focus layer_hit
    layer_focus_total o l p geo g e = elim (Bool-cases (env.can_receive_keyboard_focus l)) [
      | inl t ↦ (
        root_if (env.layer_wl_surface l) (
            env.layer_surface_under l
              (sub_point sm (sub_point sm p (point_to_f64 sm geo.loc)) (point_to_f64 sm g.loc))),
        rw (layer_focus, layer_hit, e, t) refl,
      )
      | inr t ↦ (none, rw (layer_focus, layer_hit, t) refl)
    ]

    module _ (p relative : PointF sm) (o : Output) (geo : Rectangle) (ws : Workspace sm) where
      behind_top_total :
          (under : Option (WlSurface × Point)) × (behind_top env p relative o geo ws ≡ ok under)
      unfolding behind_top
      behind_top_total =
          elim (Option-cases (sm.space_surface_under ws.space relative.fx relative.fy)) [
            | inr ((w, surface, loc), e) ↦ (
              some (surface, add_loc loc (to_i32_round sm (sub_point sm p relative))),
              rw (behind_top, e) refl,
            )
            | inl e ↦
                elim (Option-cases (either_layer env o Layer.bottom Layer.background relative)) [
                  | inl f ↦ (none, rw (behind_top, e, f) refl)
                  | inr (l, f) ↦
                      let (g, at) =
                        either_layer_place o Layer.bottom Layer.background relative l f in
                      let (under, runs) = layer_surface_at_total o l p geo g at in
                      (under, rw (behind_top, e, f) runs)
                ]
          ]

      -- The pointer's lookup returns, whatever the workspace shows.
      pub surface_under_total :
          (under : Option (WlSurface × Point)) × (surface_under env p relative o geo ws ≡ ok under)
      unfolding surface_under
      surface_under_total = elim (Option-cases (get_fullscreen env ws o)) [
        | inl e ↦ elim (Option-cases (either_layer env o Layer.overlay Layer.top relative)) [
          | inl f ↦ let (under, runs) = behind_top_total in (under, rw (surface_under, e, f) runs)
          | inr (l, f) ↦
              let (g, at) = either_layer_place o Layer.overlay Layer.top relative l f in
              let (under, runs) = layer_surface_at_total o l p geo g at in
              (under, rw (surface_under, e, f) runs)
        ]
        | inr (w, e) ↦ elim (Option-cases (either_layer env o Layer.overlay Layer.top relative)) [
          | inl f ↦ (
            shift geo.loc (env.window_surface_under w (sub_point sm p (point_to_f64 sm geo.loc))),
            rw (surface_under, e, f) refl,
          )
          | inr (l, f) ↦
              let (g, at) = either_layer_place o Layer.overlay Layer.top relative l f in
              let (under, runs) = layer_surface_at_total o l p geo g at in
              (under, rw (surface_under, e, f) runs)
        ]
      ]

      focus_behind_top_total :
          (under : Option WlSurface) × (focus_behind_top env p relative o geo ws ≡ ok under)
      unfolding focus_behind_top
      focus_behind_top_total =
          elim (Option-cases (sm.space_surface_under ws.space relative.fx relative.fy)) [
            | inr ((w, surface, loc), e) ↦ (some (env.wl_surface w), rw (focus_behind_top, e) refl)
            | inl e ↦ elim (Option-cases (either_layer env o Layer.bottom Layer.background p)) [
              | inl f ↦ (none, rw (focus_behind_top, e, f) refl)
              | inr (l, f) ↦
                  let (g, at) = either_layer_place o Layer.bottom Layer.background p l f in
                  let (under, runs) = layer_focus_total o l p geo g at in
                  (under, rw (focus_behind_top, e, f) runs)
            ]
          ]

      -- So does the lookup of a press.
      pub focus_under_total :
          (under : Option WlSurface) × (focus_under env p relative o geo ws ≡ ok under)
      unfolding focus_under
      focus_under_total = elim (Option-cases (get_fullscreen env ws o)) [
        | inl e ↦ elim (Option-cases (either_layer env o Layer.overlay Layer.top relative)) [
          | inl f ↦
              let (under, runs) = focus_behind_top_total in (under, rw (focus_under, e, f) runs)
          | inr (l, f) ↦
              let (g, at) = either_layer_place o Layer.overlay Layer.top relative l f in
              let (under, runs) = layer_focus_total o l p geo g at in
              (under, rw (focus_under, e, f) runs)
        ]
        | inr (w, e) ↦ elim (Option-cases (env.layer_under o Layer.overlay relative)) [
          | inl f ↦ (
            root_if (env.wl_surface w)
                (env.window_surface_under w (sub_point sm p (point_to_f64 sm geo.loc))),
            rw (focus_under, e, f) refl,
          )
          | inr (l, f) ↦
              let (g, at) = places.has_place o Layer.overlay relative l f in
              let (under, runs) = layer_focus_total o l p geo g at in
              (under, rw (focus_under, e, f) runs)
        ]
      ]
