-- ===== src/Shell/Grab/Release.antt =====
-- src/shell/grab.rs: a window that is carried is put down when the last button is released.
use electrum.Prelude.{
  ◌==◌, if◌then◌else◌, Outcome, ok, ◌>>=◌, ℕ, ◌≡◌, refl, ap, ◌∙◌, true, false, none, some, List, [],
  ◌∷◌,
}
use electrum.Smithay.{Window, Output, Seat, Serial, has, Smithay}
use electrum.Smithay.Geometry.{Size}
use electrum.World.{
  MoveGrabState, PointF, pointer_motion, pointer_button, unset_grab, World, Env, emit,
}
use electrum.Workspace.{Workspace}
use electrum.Focus.{get_active_focus}
use electrum.Shell.{Shell}
use electrum.State.Output.{active_output}
use electrum.Shell.Grab.{landing, ungrab, move_motion, move_button, run_idle, dispatch_idle}
use electrum.Shell.Grab.Drop.{drop_move-lands}

module _ {sm : Smithay} (env : Env sm) where
  -- The motions of the pointer while it carries a window.
  pub move_all :
      Shell sm → World sm → Window → Seat → List (PointF sm × Serial) → Outcome (World sm)
  move_all sh d w seat [] = ok d
  move_all sh d w seat ((location, serial) ∷ motions) = do
    d' ← move_motion env sh d w seat location serial
    move_all sh d' w seat motions

  move_all_lem :
      (sh : Shell sm) (d : World sm) (w : Window) (seat : Seat)
      (motions : List (PointF sm × Serial))
      → env.alive w ≡ true
      → (d' : World sm) × (move_all sh d w seat motions ≡ ok d')
        × (d'.seat_data ≡ d.seat_data)
        × (d'.idle ≡ d.idle)
  unfolding move_all move_motion
  move_all_lem sh d w seat [] live = (d, refl, refl, refl)
  move_all_lem sh d w seat ((location, serial) ∷ motions) live =
      let d1 = emit d (pointer_motion location none serial) in
      let (d', runs, seats, idle) = move_all_lem sh d1 w seat motions live in
      (d', rw live runs, seats, idle)

  -- A live window that a seat's pointer carries is put down in the end: after any motions, once the
  -- release of a button leaves none pressed, the idle event loop maps the window where the pointer,
  -- by then, has carried it and nowhere else, lists it in the layout of the active workspace and focuses it,
  -- and the seat carries nothing.
  pub dispatch_idle-move_button :
      (later : Env sm) (sh : Shell sm) (ws : Workspace sm) (rest : List (Workspace sm))
      (d : World sm) (seat : Seat) (grab : MoveGrabState (PointF sm)) (p : PointF sm) (o : Output)
      (lo hi : Size) (motions : List (PointF sm × Serial)) (button : ℕ) (serial : Serial)
      → sh.workspaces ≡ ws ∷ rest
      → (d.seat_data seat).move_grab ≡ some (some grab)
      → (d.seat_data seat).active_output ≡ some o
      → d.idle ≡ []
      → env.alive grab.window ≡ true
      → later.pointer seat ≡ some p
      → later.role_sizes grab.window ≡ some (lo, hi)
      → later.alive grab.window ≡ true
      → later.has_keyboard seat ≡ true
      → (d1 d2 d3 : World sm) × (ws' : Workspace sm) × (move_all sh d grab.window seat motions
          ≡ ok d1)
        × (move_button env sh d1 seat button false serial [] ≡ ok d2)
        × (dispatch_idle later sh d2 ≡ ok (record sh { workspaces = ws' ∷ rest }, d3))
        × ((v : Window)
            → sm.window_location ws'.space v ≡ (
                if grab.window == v
                then some (landing later grab p)
                else sm.window_location ws.space v))
        × (has ws'.layer.windows grab.window ≡ true)
        × (get_active_focus d3 seat ≡ some (later.wl_surface grab.window))
        × ((d3.seat_data seat).move_grab ≡ some none)
  unfolding move_button ungrab dispatch_idle run_idle active_output
  dispatch_idle-move_button later sh ws rest d seat grab p o lo hi motions button serial e_ws e_grab
        e_out e_idle live e_p e_sizes lives kb =
      let (d1, moves, seats, idle) = move_all_lem sh d grab.window seat motions live in
      let carried = ap (λ f. (f seat).move_grab) seats ∙ e_grab in
      let out = ap (λ f. (f seat).active_output) seats ∙ e_out in
      let told = emit d1 (pointer_button button false serial) in
      let d2 = emit (record told { idle = (seat, o) ∷ [] }) (unset_grab serial) in
      let (ws', d3, drops, listed, stands, focus, empty) =
        drop_move-lands later sh ws rest (record d2 { idle = [] }) seat grab p o lo hi e_ws carried
          out e_p e_sizes lives kb in
      (
        d1,
        d2,
        d3,
        ws',
        moves,
        rw (move_button, ungrab, active_output, out) (rw (idle, e_idle) refl),
        rw drops refl,
        stands,
        listed,
        focus,
        empty,
      )
