-- ===== src/Layout.antt =====
-- src/shell/layout/mod.rs: floating windows, where they are placed and how large they get.
pub mod Sizing
pub mod Placing
pub mod Remembering
pub mod Grab
use electrum.Prelude.{
  ◌==◌, if◌then◌else◌, length, retain, Outcome, ok, ◌>>=◌, unwrap, ℕ, ◌+◌, Bool, true, false, not,
  ◌&&◌, ◌||◌, Option, none, some, List, [], ◌∷◌, ◌++◌,
}
use electrum.Prelude.Int.{ℤ, pos, ◌+ℤ◌, ◌-ℤ◌, ◌*ℤ◌, ltb_ℤ}
use electrum.Smithay.{
  Window, Output, Seat, maximized, tiled_left, tiled_right, tiled_top, tiled_bottom, has, Smithay,
}
use electrum.Smithay.Geometry.{wrap_i32, eq_i32, min_i32, max_i32, div_i32, Point, Size, Rectangle}
use electrum.World.{pointer, World, Env, update, set_pending}

pub record Layout : Type 0 where
  pub pending_windows : List Window
  pub windows : List Window

-- `FLOATING_INDEX`
abbrev pub floating_index : Smithay → ℕ
floating_index sm = sm.shell_zindex + 1

-- One axis of the size limits: a window that is larger than two thirds of the zone is cut down to
-- that, within its own limits (0 is no limit), but never past the zone. Beside the new length stands
-- whether it was cut. Two thirds of an `i32` are an `i32`, so nothing wraps.
unfoldable pub fit_axis : ℤ → ℤ → ℤ → ℤ → ℤ × Bool
fit_axis zone lo hi length =
    let third = div_i32 zone 3 *ℤ pos 2 in
    let below = if eq_i32 hi (pos 0) then third else min_i32 hi third in
    let above = if eq_i32 lo (pos 0) then below else max_i32 lo below in
    if ltb_ℤ third length then (min_i32 above zone, true) else (length, false)

-- The middle of a zone, for a window of a length and an offset, on one axis.
pub centre_axis : ℤ → ℤ → ℤ → ℤ → ℤ
centre_axis start zone length offset =
    wrap_i32 (wrap_i32 (wrap_i32 (start +ℤ div_i32 zone 2) -ℤ div_i32 length 2) +ℤ offset)

abbrev pub eq_size : Size → Size → Bool
eq_size a b = eq_i32 a.w b.w && eq_i32 a.h b.h

-- The size that a window starts from, and whether it counts as updated: the remembered size, if
-- there is one.
pub recall_size : Option Rectangle → Size → Size × Bool
recall_size none size = (size, false)
recall_size (some g) size = (g.size, eq_size size g.size)

-- Both axes, after `recall_size`.
pub fit_size : Size → Size → Size → Size × Bool → Size × Bool
fit_size zone lo hi (size, updated) =
    let (w, cut_w) = fit_axis zone.w lo.w hi.w size.w in
    let (h, cut_h) = fit_axis zone.h lo.h hi.h size.h in
    (record { w = w; h = h }, updated || cut_w || cut_h)

-- `position.or_else(..).unwrap_or_else(..)`
pub choose_position : Option Point → Option Rectangle → Rectangle → Rectangle → Size → Point
choose_position (some p) g zone win size = p
choose_position none (some g) zone win size = g.loc
choose_position none none zone win size = record {
  x = centre_axis zone.loc.x zone.size.w size.w win.loc.x;
  y = centre_axis zone.loc.y zone.size.h size.h win.loc.y;
}

abbrev pub head? : List Output → Option Output
head? [] = none
head? (o ∷ os) = some o

-- `HashSet::insert`
abbrev pub insert_window : List Window → Window → List Window
insert_window ws w = if has ws w then ws else w ∷ ws

module _ {sm : Smithay} (env : Env sm) where
  -- The four tiled states are unset.
  pub untile : sm.StateSet → sm.StateSet
  untile s =
      sm.unset_state
        (sm.unset_state (sm.unset_state (sm.unset_state s tiled_left) tiled_right) tiled_top)
        tiled_bottom

  pub configure_floating : World sm → Window → Size × Bool → World sm
  configure_floating d w (size, updated) =
      let p = d.pending w in
      set_pending d w
        (record { states = untile p.states; size = if updated then some size else p.size })

  -- `map_window_internal`
  pub place_window :
      Layout
      → sm.Space
      → World sm
      → Window
      → Output
      → Option Point
      → Outcome (Layout × sm.Space × World sm)
  place_window l s d w o position = do
    let g = d.last_geometry w
    let win = env.window_geometry w
    let zone = env.non_exclusive_zone o
    (lo, hi) ← unwrap (env.role_sizes w)
    let fitted = fit_size zone.size lo hi (recall_size g win.size)
    let p = choose_position position g zone win fitted.0
    ok (
      record l { windows = insert_window l.windows w },
      sm.map_window s w p (floating_index sm) false,
      configure_floating d w fitted,
    )

  -- `output_from_seat(Some(seat), space)`
  pub output_from_seat : World sm → sm.Space → Seat → Outcome (Option Output)
  output_from_seat d s seat = elim (d.seat_data seat).active_output [
    | some o ↦ ok (some o)
    | none ↦ elim (env.pointer seat) [
      | none ↦ ok (head? (sm.space_outputs s))
      | some p ↦ do o ← unwrap (head? (sm.output_under s p.fx p.fy)); ok (some o)
    ]
  ]

  -- `Layout::map_window`
  pub map_floating :
      Layout
      → sm.Space
      → World sm
      → Window
      → Seat
      → Option Point
      → Outcome (Layout × sm.Space × World sm)
  map_floating l s d w seat position = do
    found ← output_from_seat d s seat
    elim found [
      | some o ↦ place_window l s d w o position
      | none ↦ ok (record l { pending_windows = l.pending_windows ++ w ∷ [] }, s, d)
    ]

  abbrev pub no_geometry : Rectangle
  no_geometry = record {
    loc = record { x = pos 0; y = pos 0 };
    size = record { w = pos 0; h = pos 0 };
  }

  -- The geometry that a window had when it was unmapped is kept in its user data.
  pub remember : sm.Space → World sm → Window → Outcome (World sm)
  remember s d w = elim (sm.window_location s w) [
    | none ↦ ok d
    | some loc ↦ do
      _ ← unwrap (sm.insert_if_missing (d.last_geometry w) no_geometry).0
      let g : Rectangle = record { loc = loc; size = (env.window_geometry w).size }
      ok (record d { last_geometry = update d.last_geometry w (some g) })
  ]

  -- `Layout::unmap_window`
  pub unmap_floating :
      Layout → sm.Space → World sm → Window → Outcome (Layout × sm.Space × World sm)
  unmap_floating l s d w = do
    let kept = remember s d w
    d' ← if sm.contains_state (d.pending w).states maximized then ok d else kept
    ok (
      record l {
        pending_windows = retain (λ v. not (v == w)) l.pending_windows;
        windows = retain (λ v. not (v == w)) l.windows;
      },
      sm.unmap_window s w,
      d',
    )

  abbrev size_of : Option Rectangle → Option Size
  size_of none = none
  size_of (some g) = some g.size

  -- `Layout::unmaximize_request`
  pub unmaximize_floating : sm.Space → World sm → Window → sm.Space × World sm
  unmaximize_floating s d w =
      let g = d.last_geometry w in
      let p = d.pending w in
      let d' =
        set_pending d w (record { states = sm.unset_state p.states maximized; size = size_of g }) in
      elim g [ none ↦ (s, d') | some r ↦ (sm.map_window s w r.loc (floating_index sm) true, d') ]
