-- ===== src/Input/Under.antt =====
-- src/input/mod.rs: what lies below the pointer, for its motion (`surface_under`) and for the
-- keyboard focus when a button is pressed.
pub mod Owner
pub mod Total
use electrum.Prelude.{if◌then◌else◌, Outcome, ok, ◌>>=◌, unwrap, Option, none, some}
use electrum.Prelude.Int.{◌+ℤ◌}
use electrum.Smithay.{WlSurface, LayerSurface, Output, Smithay}
use electrum.Smithay.Geometry.{wrap_i32, Point, Rectangle}
use electrum.World.{PointF, Env, sub_point, point_to_f64, to_i32_round}
use electrum.World.Layers.{Layer, background, bottom, top, overlay}
use electrum.Workspace.{Workspace, get_fullscreen}

-- The sum of two points over `i32`.
abbrev pub add_loc : Point → Point → Point
add_loc p q = record { x = wrap_i32 (p.x +ℤ q.x); y = wrap_i32 (p.y +ℤ q.y) }

-- A surface with its location, moved.
abbrev pub shift : Point → Option (WlSurface × Point) → Option (WlSurface × Point)
shift by none = none
shift by (some (surface, loc)) = some (surface, add_loc loc by)

-- `map(|(_, _)| root)`: the root surface, if some surface was hit.
abbrev pub root_if : WlSurface → Option (WlSurface × Point) → Option WlSurface
root_if root none = none
root_if root (some _) = some root

module _ {sm : Smithay} (env : Env sm) where
  -- `layers.layer_under(first, p).or_else(|| layers.layer_under(second, p))`
  abbrev pub either_layer : Output → Layer → Layer → PointF sm → Option LayerSurface
  either_layer o first second p = elim (env.layer_under o first p) [
    | some l ↦ some l
    | none ↦ env.layer_under o second p
  ]

  -- A point relative to a layer surface, which the output's map has to know.
  unfoldable pub layer_hit :
      Output → LayerSurface → PointF sm → Rectangle → Outcome (Point × Option (WlSurface × Point))
  layer_hit o l p geo = do
    g ← unwrap (env.layer_geometry o l)
    let q = sub_point sm (sub_point sm p (point_to_f64 sm geo.loc)) (point_to_f64 sm g.loc)
    ok (g.loc, env.layer_surface_under l q)

  -- The surface of a layer surface at a point, in global coordinates.
  unfoldable pub layer_surface_at :
      Output → LayerSurface → PointF sm → Rectangle → Outcome (Option (WlSurface × Point))
  layer_surface_at o l p geo = do
    (loc, hit) ← layer_hit o l p geo
    ok (shift geo.loc (shift loc hit))

  -- What lies below a window's layers: the windows, then the layers at the back.
  unfoldable pub behind_top :
      PointF sm
      → PointF sm
      → Output
      → Rectangle
      → Workspace sm
      → Outcome (Option (WlSurface × Point))
  behind_top p relative o geo ws = elim (sm.space_surface_under ws.space relative.fx relative.fy) [
    | some (w, surface, loc) ↦
        ok (some (surface, add_loc loc (to_i32_round sm (sub_point sm p relative))))
    | none ↦ elim (either_layer o Layer.bottom Layer.background relative) [
      | some l ↦ layer_surface_at o l p geo
      | none ↦ ok none
    ]
  ]

  -- `State::surface_under`
  unfoldable pub surface_under :
      PointF sm
      → PointF sm
      → Output
      → Rectangle
      → Workspace sm
      → Outcome (Option (WlSurface × Point))
  surface_under p relative o geo ws = elim (get_fullscreen env ws o) [
    | some w ↦ elim (either_layer o Layer.overlay Layer.top relative) [
      | some l ↦ layer_surface_at o l p geo
      | none ↦
          ok (shift geo.loc (env.window_surface_under w (sub_point sm p (point_to_f64 sm geo.loc))))
    ]
    | none ↦ elim (either_layer o Layer.overlay Layer.top relative) [
      | some l ↦ layer_surface_at o l p geo
      | none ↦ behind_top p relative o geo ws
    ]
  ]

  -- The root surface of a layer surface that takes the keyboard.
  unfoldable pub layer_focus :
      Output → LayerSurface → PointF sm → Rectangle → Outcome (Option WlSurface)
  layer_focus o l p geo =
      let hit = layer_hit o l p geo in
      if env.can_receive_keyboard_focus l
      then (do (loc, h) ← hit; ok (root_if (env.layer_wl_surface l) h))
      else ok none

  unfoldable pub focus_behind_top :
      PointF sm → PointF sm → Output → Rectangle → Workspace sm → Outcome (Option WlSurface)
  focus_behind_top p relative o geo ws =
      elim (sm.space_surface_under ws.space relative.fx relative.fy) [
        | some (w, _, _) ↦ ok (some (env.wl_surface w))
        | none ↦ elim (either_layer o Layer.bottom Layer.background p) [
          | some l ↦ layer_focus o l p geo
          | none ↦ ok none
        ]
      ]

  -- The keyboard focus of a press: the variable `under` of `PointerButton`.
  unfoldable pub focus_under :
      PointF sm → PointF sm → Output → Rectangle → Workspace sm → Outcome (Option WlSurface)
  focus_under p relative o geo ws = elim (get_fullscreen env ws o) [
    | some w ↦ elim (env.layer_under o Layer.overlay relative) [
      | some l ↦ layer_focus o l p geo
      | none ↦ ok (
          root_if (env.wl_surface w)
            (env.window_surface_under w (sub_point sm p (point_to_f64 sm geo.loc))))
    ]
    | none ↦ elim (either_layer o Layer.overlay Layer.top relative) [
      | some l ↦ layer_focus o l p geo
      | none ↦ focus_behind_top p relative o geo ws
    ]
  ]
