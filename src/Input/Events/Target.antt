-- ===== src/Input/Events/Target.antt =====
-- src/input/mod.rs: what the pointer is on and what a press focuses, by the owner of a point.
use electrum.Prelude.{
  if◌then◌else◌, Bool-cases, Option-cases, ok, ◌≡◌, refl, ◌∙◌, inl, inr, Option, none, some, List,
  [], ◌∷◌, arith,
}
use electrum.Smithay.{WlSurface, LayerSurface, Output, Smithay}
use electrum.Smithay.Geometry.{Point, Rectangle}
use electrum.World.{PointF, Env, sub_point, point_to_f64, to_i32_round}
use electrum.World.Layers.{Layer}
use electrum.Workspace.{Workspace}
use electrum.State.Output.{geometry}
use electrum.Input.Under.{add_loc, shift, layer_hit, layer_surface_at, layer_focus}
use electrum.Input.Under.Owner.{
  Owner, layer_owner, window_owner, nobody, first_layer, owner_at, pointer_enters, keyboard_enters,
}
use electrum.Input.Events.{relative_to}

module _ {sm : Smithay} (env : Env sm) where
  -- A layer surface that an output's layer map finds at a point has a place on the output, and a
  -- surface at that point.
  abbrev pub IsHit : Output → PointF sm → LayerSurface → Type 0
  IsHit o p l =
      (g : Rectangle) × (env.layer_geometry o l ≡ some g)
      × ((surface : WlSurface) × (loc : Point) × (env.layer_surface_under l
              (sub_point sm p (point_to_f64 sm g.loc))
            ≡ some (surface, loc)))

  pub record LayersAreHit : Type 0 where
    pub hits :
        (o : Output) (layer : Layer) (p : PointF sm) (l : LayerSurface)
        → env.layer_under o layer p ≡ some l
        → IsHit o p l

  -- What a press on an owner focuses: the toplevel of a window, whichever of its surfaces was hit,
  -- and a layer surface that takes the keyboard.
  abbrev pub press_target : Owner → Option WlSurface
  press_target (layer_owner l) =
      if env.can_receive_keyboard_focus l then some (env.layer_wl_surface l) else none
  press_target (window_owner w surface loc) = some (env.wl_surface w)
  press_target nobody = none

  abbrev OwnerIsHit : Output → PointF sm → Owner → Type 0
  OwnerIsHit o p (layer_owner l) = IsHit o p l
  OwnerIsHit o p (window_owner w surface loc) = Unit
  OwnerIsHit o p nobody = Unit

  pub first_layer-IsHit :
      (o : Output) (layers : List Layer) (p : PointF sm) (l : LayerSurface)
      → LayersAreHit
      → first_layer env o layers p ≡ some l
      → IsHit o p l
  first_layer-IsHit o [] p l h found = ground arith
  first_layer-IsHit o (layer ∷ layers) p l h found =
      elim (Option-cases (env.layer_under o layer p)) [
        | inl e ↦ first_layer-IsHit o layers p l h (rw (first_layer, e) at found)
        | inr (k, e) ↦ h.hits o layer p l (e ∙ (rw (first_layer, e) at found))
      ]

  pub owner_at-OwnerIsHit :
      (o : Output) (ws : Workspace sm) (p : PointF sm)
      → LayersAreHit
      → OwnerIsHit o p (owner_at env o ws p)
  unfolding owner_at
  owner_at-OwnerIsHit o ws p h =
      let front = Layer.overlay ∷ Layer.top ∷ [] in
      let back = Layer.bottom ∷ Layer.background ∷ [] in
      elim (Option-cases (first_layer env o front p)) [
        | inr (l, e) ↦ rw (owner_at, e) (first_layer-IsHit o front p l h e)
        | inl e ↦ elim (Option-cases (sm.space_surface_under ws.space p.fx p.fy)) [
          | inr ((w, surface, loc), f) ↦ rw (owner_at, e, f) tt
          | inl f ↦ elim (Option-cases (first_layer env o back p)) [
            | inr (l, g) ↦ rw (owner_at, e, f, g) (first_layer-IsHit o back p l h g)
            | inl g ↦ rw (owner_at, e, f, g) tt
          ]
        ]
      ]

  module _ (p : PointF sm) (o : Output) where
    pub layer_hit-IsHit :
        (l : LayerSurface)
        → IsHit o (relative_to env p o) l
        → (surface : WlSurface) × (loc at : Point) × (layer_hit env o l p (geometry env o)
            ≡ ok (at, some (surface, loc)))
    unfolding layer_hit geometry
    layer_hit-IsHit l (g, e, (surface, loc, f)) = (surface, loc, g.loc, rw e (rw f refl))

    pub keyboard_enters-press_target :
        (owner : Owner)
        → OwnerIsHit o (relative_to env p o) owner
        → keyboard_enters env p o (geometry env o) owner ≡ ok (press_target owner)
    unfolding keyboard_enters layer_focus
    keyboard_enters-press_target (layer_owner l) hit =
        let (surface, loc, at, e) = layer_hit-IsHit l hit in
        elim (Bool-cases (env.can_receive_keyboard_focus l)) [
          | inl f ↦ rw f (rw e refl)
          | inr f ↦ rw f refl
        ]
    keyboard_enters-press_target (window_owner w surface loc) hit = refl
    keyboard_enters-press_target nobody hit = refl

    pub pointer_enters_total :
        (owner : Owner)
        → OwnerIsHit o (relative_to env p o) owner
        → (under : Option (WlSurface × Point)) × (pointer_enters env p
              (relative_to env p o)
              o
              (geometry env o)
              owner
            ≡ ok under)
    unfolding pointer_enters layer_surface_at
    pointer_enters_total (layer_owner l) hit =
        let (surface, loc, at, e) = layer_hit-IsHit l hit in
        (shift (geometry env o).loc (shift at (some (surface, loc))), rw e refl)
    pointer_enters_total (window_owner w surface loc) hit =
        (some (surface, add_loc loc (to_i32_round sm (sub_point sm p (relative_to env p o)))), refl)
    pointer_enters_total nobody hit = (none, refl)
