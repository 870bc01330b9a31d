-- ===== src/Shell/Grab.antt =====
-- src/shell/grab.rs: moving a window with the pointer. The grab takes the window out of its layout;
-- letting go puts it back where the pointer took it, when the event loop is idle.
pub mod Drop
pub mod Carry
pub mod Release
use electrum.Prelude.{
  if◌then◌else◌, find, Outcome, ok, ◌>>=◌, unwrap, ℕ, Bool, not, Option, none, some, List, [], ◌∷◌,
  ◌++◌,
}
use electrum.Prelude.Int.{ℤ}
use electrum.Smithay.{Window, WlSurface, Output, Seat, Serial, all, maximized, fullscreen, Smithay}
use electrum.Smithay.Geometry.{Point, Size}
use electrum.World.{
  pointer, MoveGrabState, PointF, AxisFrame, pointer_motion, pointer_button, pointer_axis, set_grab,
  unset_grab, World, Env, sub_point, add_point, point_to_f64, to_i32_round, emit, set_seat,
}
use electrum.Workspace.{Workspace, is_fullscreen}
use electrum.Layout.{map_floating, unmap_floating, unmaximize_floating}
use electrum.Shell.{Shell, active_workspace, set_workspace, space_for_window, set_focus}
use electrum.State.Output.{geometry, active_output}

module _ {sm : Smithay} (env : Env sm) where
  -- A write through the reference that `space_for_window_mut` returns.
  pub put_space_for_window : List (Workspace sm) → WlSurface → Workspace sm → List (Workspace sm)
  put_space_for_window [] surface ws' = []
  put_space_for_window (ws ∷ rest) surface ws' = elim (sm.window_for_surface ws.space surface all) [
    | none ↦ ws ∷ put_space_for_window rest surface ws'
    | some _ ↦ ws' ∷ rest
  ]

  -- Where a window that was maximized is picked up: under the pointer, in the proportion in which
  -- the pointer stood on the output.
  pub picked_up : Option Size → PointF sm → Output → Point
  picked_up size p o =
      let ratio = sm.div_float p.fx (sm.of_i32 (geometry env o).size.w) in
      elim size [
        | none ↦ to_i32_round sm p
        | some z ↦
            to_i32_round sm
              (record { fx = sm.sub_float p.fx (sm.mul_float (sm.of_i32 z.w) ratio); fy = p.fy })
      ]

  -- A maximized window is unmaximized first, which moves it on the screen.
  pub lift : sm.Space → World sm → Window → PointF sm → Output → Point → sm.Space × World sm × Point
  lift s d w p o at =
      if sm.contains_state (env.current_states w) maximized
      then (let (s', d') = unmaximize_floating env s d w in
          (s', d', picked_up (d'.pending w).size p o))
      else (s, d, at)

  pub begin_move :
      Shell sm
      → Workspace sm
      → World sm
      → Window
      → Seat
      → Serial
      → PointF sm
      → Outcome (Shell sm × World sm)
  begin_move sh ws d w seat serial p = do
    o ← unwrap (
        find (λ o. sm.contains (geometry env o) (to_i32_round sm p))
          (sm.outputs_for_window ws.space w))
    at ← unwrap (sm.window_location ws.space w)
    let (s1, d1, start) = lift ws.space d w p o at
    (l, s2, d2) ← unmap_floating env ws.layer s1 d1 w
    _ ← unwrap (d2.seat_data seat).move_grab
    let grab : MoveGrabState (PointF sm) = record {
      window = w;
      initial_cursor_location = p;
      initial_window_location = start;
    }
    let d3 = set_seat d2 seat (record (d2.seat_data seat) { move_grab = some (some grab) })
    let ws' = record ws { space = s2; layer = l }
    ok (
      record sh { workspaces = put_space_for_window sh.workspaces (env.wl_surface w) ws' },
      emit d3 (set_grab seat w serial),
    )

  -- `Shell::move_request`
  pub move_request : Shell sm → World sm → Window → Seat → Serial → Outcome (Shell sm × World sm)
  move_request sh d w seat serial = elim (env.pointer seat) [
    | none ↦ ok (sh, d)
    | some p ↦ do
      ws ← unwrap (space_for_window env sh.workspaces (env.wl_surface w))
      if is_fullscreen ws.fullscreen w then ok (sh, d) else begin_move sh ws d w seat serial p
  ]

  -- Where a window lands that the pointer carried from `start` to `p`.
  abbrev pub landing : MoveGrabState (PointF sm) → PointF sm → Point
  landing grab p = to_i32_round sm (
      add_point sm (point_to_f64 sm grab.initial_window_location)
        (sub_point sm p grab.initial_cursor_location))

  pub land :
      Shell sm
      → World sm
      → Seat
      → MoveGrabState (PointF sm)
      → PointF sm
      → Outcome (Shell sm × World sm)
  land sh d seat grab p =
      if env.alive grab.window
      then (do
        ws ← active_workspace sh.workspaces
        (l, s, d1) ← map_floating env ws.layer ws.space d grab.window seat (some (landing grab p))
        let ws' = record ws { space = s; layer = l }
        let sh' = record sh { workspaces = set_workspace sh.workspaces 0 ws' }
        d2 ← set_focus env sh' d1 (some (env.wl_surface grab.window)) seat none
        ok (sh', d2))
      else ok (sh, d)

  -- `Shell::drop_move`; `take` empties the slot.
  pub drop_move : Shell sm → World sm → Seat → Outcome (Shell sm × World sm)
  drop_move sh d seat = do
    slot ← unwrap (d.seat_data seat).move_grab
    let d' = set_seat d seat (record (d.seat_data seat) { move_grab = some none })
    elim slot [
      | none ↦ ok (sh, d')
      | some grab ↦ do p ← unwrap (env.pointer seat); land sh d' seat grab p
    ]

  -- `MoveSurfaceGrab::ungrab`
  pub ungrab : Shell sm → World sm → Seat → Serial → Outcome (World sm)
  ungrab sh d seat serial = do
    o ← active_output env sh d seat
    ok (emit (record d { idle = d.idle ++ (seat, o) ∷ [] }) (unset_grab serial))

  -- `MoveSurfaceGrab::motion`
  pub move_motion : Shell sm → World sm → Window → Seat → PointF sm → Serial → Outcome (World sm)
  move_motion sh d w seat location serial =
      let d' = emit d (pointer_motion location none serial) in
      if not (env.alive w) then ungrab sh d' seat serial else ok d'

  -- `MoveSurfaceGrab::button`; the buttons that are pressed are those that the handle reports after
  -- the event.
  pub move_button : Shell sm → World sm → Seat → ℕ → Bool → Serial → List ℕ → Outcome (World sm)
  move_button sh d seat button state serial current_pressed =
      let d' = emit d (pointer_button button state serial) in
      elim current_pressed [ [] ↦ ungrab sh d' seat serial | _ ∷ _ ↦ ok d' ]

  -- `MoveSurfaceGrab::axis`
  pub move_axis : World sm → AxisFrame sm → World sm
  move_axis d details = emit d (pointer_axis details)

  -- What the idle event loop runs, in order.
  pub run_idle : List (Seat × Output) → Shell sm → World sm → Outcome (Shell sm × World sm)
  run_idle [] sh d = ok (sh, d)
  run_idle ((seat, o) ∷ rest) sh d = do (sh', d') ← drop_move sh d seat; run_idle rest sh' d'

  pub dispatch_idle : Shell sm → World sm → Outcome (Shell sm × World sm)
  dispatch_idle sh d = run_idle d.idle sh (record d { idle = [] })
