-- ===== src/Input/Under/Owner.antt =====
-- src/input/mod.rs: whether a press gives the keyboard focus to what the pointer is over.
use electrum.Prelude.{
  Option-cases, Outcome, ok, ◌≡◌, refl, ◌∙◌, subst, inl, inr, Option, none, some, List, [], ◌∷◌,
}
use electrum.Smithay.{Window, WlSurface, LayerSurface, Output, Smithay}
use electrum.Smithay.Geometry.{Point, Rectangle}
use electrum.World.{PointF, Env, sub_point, point_to_f64, to_i32_round}
use electrum.World.Layers.{Layer}
use electrum.Workspace.{Workspace, get_fullscreen}
use electrum.Input.Under.{
  add_loc, either_layer, layer_hit, layer_surface_at, behind_top, surface_under, layer_focus,
  focus_behind_top, focus_under,
}

-- Who owns a point of an output: a layer surface, a window with the surface that was hit, or nobody.
pub data Owner : Type 0 where
  layer_owner : LayerSurface → Owner
  window_owner : Window → WlSurface → Point → Owner
  nobody : Owner

module _ {sm : Smithay} (env : Env sm) where
  -- The topmost of some layers that has a surface at a point.
  abbrev pub first_layer : Output → List Layer → PointF sm → Option LayerSurface
  first_layer o [] p = none
  first_layer o (layer ∷ layers) p = elim (env.layer_under o layer p) [
    | some l ↦ some l
    | none ↦ first_layer o layers p
  ]

  abbrev layer_or_nobody : Option LayerSurface → Owner
  layer_or_nobody none = nobody
  layer_or_nobody (some l) = layer_owner l

  abbrev window_or : Option (Window × WlSurface × Point) → Owner → Owner
  window_or none rest = rest
  window_or (some (w, surface, loc)) rest = window_owner w surface loc

  abbrev layer_or : Option LayerSurface → Owner → Owner
  layer_or none rest = rest
  layer_or (some l) rest = layer_owner l

  -- From front to back: overlay, top, the windows, bottom, background.
  unfoldable pub owner_at : Output → Workspace sm → PointF sm → Owner
  owner_at o ws p = layer_or (first_layer o (Layer.overlay ∷ Layer.top ∷ []) p) (
      window_or (sm.space_surface_under ws.space p.fx p.fy)
        (layer_or_nobody (first_layer o (Layer.bottom ∷ Layer.background ∷ []) p)))

  -- What the owner of a point has the pointer enter, and what it has the keyboard enter.
  unfoldable pub pointer_enters :
      PointF sm → PointF sm → Output → Rectangle → Owner → Outcome (Option (WlSurface × Point))
  pointer_enters p relative o geo (layer_owner l) = layer_surface_at env o l p geo
  pointer_enters p relative o geo (window_owner w surface loc) =
      ok (some (surface, add_loc loc (to_i32_round sm (sub_point sm p relative))))
  pointer_enters p relative o geo nobody = ok none

  unfoldable pub keyboard_enters :
      PointF sm → Output → Rectangle → Owner → Outcome (Option WlSurface)
  keyboard_enters p o geo (layer_owner l) = layer_focus env o l p geo
  keyboard_enters p o geo (window_owner w surface loc) = ok (some (env.wl_surface w))
  keyboard_enters p o geo nobody = ok none

  pub either_layer-first_layer :
      (o : Output) (a b : Layer) (p : PointF sm)
      → either_layer env o a b p ≡ first_layer o (a ∷ b ∷ []) p
  either_layer-first_layer o a b p = elim (Option-cases (env.layer_under o a p)) [
    | inl e ↦ elim (Option-cases (env.layer_under o b p)) [
      | inl f ↦ rw (either_layer, first_layer, e, f) refl
      | inr (l, f) ↦ rw (either_layer, first_layer, e, f) refl
    ]
    | inr (l, e) ↦ rw (either_layer, first_layer, e) refl
  ]

  module _ (p relative : PointF sm) (o : Output) (geo : Rectangle) (ws : Workspace sm) where
    served :
        (front : Option LayerSurface) (window : Option (Window × WlSurface × Point))
        (back : Option LayerSurface)
        → sm.space_surface_under ws.space relative.fx relative.fy ≡ window
        → either_layer env o Layer.bottom Layer.background relative ≡ back
        → either_layer env o Layer.bottom Layer.background p ≡ back
        → let owner = layer_or front (window_or window (layer_or_nobody back)) in
          ((elim front [
            | some l ↦ layer_surface_at env o l p geo
            | none ↦ behind_top env p relative o geo ws
          ])
            ≡ pointer_enters p relative o geo owner)
          × ((elim front [
            | some l ↦ layer_focus env o l p geo
            | none ↦ focus_behind_top env p relative o geo ws
          ])
              ≡ keyboard_enters p o geo owner)
    unfolding behind_top focus_behind_top pointer_enters keyboard_enters
    served (some l) window back e f g = (refl, refl)
    served none (some (w, surface, loc)) back e f g =
        (rw (behind_top, e) refl, rw (focus_behind_top, e) refl)
    served none none none e f g = (rw (behind_top, e, f) refl, rw (focus_behind_top, e, g) refl)
    served none none (some l) e f g = (rw (behind_top, e, f) refl, rw (focus_behind_top, e, g) refl)

    -- Without a fullscreen window, the pointer enters what the owner gives it, on any output.
    pub surface_under-owner_at :
        get_fullscreen env ws o ≡ none
        → surface_under env p relative o geo ws
          ≡ pointer_enters p relative o geo (owner_at o ws relative)
    unfolding surface_under behind_top owner_at pointer_enters
    surface_under-owner_at windowed =
        let top = Layer.overlay ∷ Layer.top ∷ [] in
        let low = Layer.bottom ∷ Layer.background ∷ [] in
        let front = either_layer-first_layer o Layer.overlay Layer.top relative in
        let back = either_layer-first_layer o Layer.bottom Layer.background relative in
        elim (Option-cases (first_layer o top relative)) [
          | inr (l, e) ↦ rw (surface_under, windowed, front ∙ e) (rw (owner_at, e) refl)
          | inl e ↦ elim (Option-cases (sm.space_surface_under ws.space relative.fx relative.fy)) [
            | inr ((w, surface, loc), f) ↦
                rw (surface_under, windowed, front ∙ e) (rw (behind_top, f) (rw (owner_at, e) refl))
            | inl f ↦ elim (Option-cases (first_layer o low relative)) [
              | inr (l, g) ↦
                  rw (surface_under, windowed, front ∙ e)
                    (rw (behind_top, f, back ∙ g) (rw (owner_at, e, g) refl))
              | inl g ↦
                  rw (surface_under, windowed, front ∙ e)
                    (rw (behind_top, f, back ∙ g) (rw (owner_at, e, g) refl))
            ]
          ]
        ]

    -- Without a fullscreen window, the pointer enters what the owner of the point gives it, the
    -- layers being searched from front to back. On an output at the origin, where coordinates
    -- relative to the output are the global ones, a press gives the keyboard focus to that same
    -- owner.
    pub focus_under-surface_under :
        get_fullscreen env ws o ≡ none
        → relative ≡ p
        → (surface_under env p relative o geo ws
            ≡ pointer_enters p relative o geo (owner_at o ws relative))
          × (focus_under env p relative o geo ws ≡ keyboard_enters p o geo (owner_at o ws relative))
    unfolding surface_under focus_under behind_top focus_behind_top owner_at pointer_enters
        keyboard_enters
    focus_under-surface_under windowed same =
        let front = either_layer-first_layer o Layer.overlay Layer.top relative in
        let back = either_layer-first_layer o Layer.bottom Layer.background relative in
        let back_p =
          subst
            (λ q.
              either_layer env o Layer.bottom Layer.background q
              ≡ first_layer o (Layer.bottom ∷ Layer.background ∷ []) relative)
            same back in
        let both =
          served (first_layer o (Layer.overlay ∷ Layer.top ∷ []) relative)
            (sm.space_surface_under ws.space relative.fx relative.fy)
            (first_layer o (Layer.bottom ∷ Layer.background ∷ []) relative) refl back back_p in
        (
          rw (surface_under, windowed) (rw front both.0),
          rw (focus_under, windowed) (rw front both.1),
        )

    -- With a fullscreen window and a surface of the top layer in front of it, the pointer is on that
    -- layer surface while a press gives the keyboard focus to the fullscreen window.
    pub focus_under-ignores_top :
        (w : Window) (l : LayerSurface) (g : Rectangle) (surface under : WlSurface) (loc at : Point)
        → get_fullscreen env ws o ≡ some w
        → env.layer_under o Layer.overlay relative ≡ none
        → env.layer_under o Layer.top relative ≡ some l
        → layer_hit env o l p geo ≡ ok (g.loc, some (surface, loc))
        → env.window_surface_under w (sub_point sm p (point_to_f64 sm geo.loc)) ≡ some (under, at)
        → (surface_under env p relative o geo ws
            ≡ ok (some (surface, add_loc (add_loc loc g.loc) geo.loc)))
          × (focus_under env p relative o geo ws ≡ ok (some (env.wl_surface w)))
    unfolding surface_under focus_under layer_surface_at
    focus_under-ignores_top w l g surface under loc at full no_overlay on_top hit hit_window = (
      rw (surface_under, full, no_overlay, on_top) (rw (layer_surface_at, hit) refl),
      rw (focus_under, full, no_overlay, hit_window) refl,
    )
