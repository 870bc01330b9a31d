-- ===== src/Shell/Grab/Drop.antt =====
-- src/shell/grab.rs: where a window is after the pointer let it go.
use electrum.Prelude.{
  ◌==◌, if◌then◌else◌, ==-refl, ok, ◌≡◌, refl, ap, ◌∙◌, true, false, Option, none, some, List, ◌∷◌,
}
use electrum.Smithay.{Window, WlSurface, Output, Seat, Serial, has, Smithay}
use electrum.Smithay.Geometry.{Size}
use electrum.World.{MoveGrabState, PointF, World, Env, set_seat}
use electrum.Workspace.{Workspace}
use electrum.Layout.{floating_index, insert_window}
use electrum.Focus.{get_active_focus}
use electrum.Focus.Data.{set_active_focus-eq}
use electrum.Shell.{Shell, set_workspace, set_focus}
use electrum.Shell.SetFocus.Slots.{SameSlots, focus_window-SameSlots, focused-SameSlots}
use electrum.Shell.SetFocus.{focused, get_active_focus-focused}
use electrum.Layout.Placing.{has-insert_window, map_floating_lem}
use electrum.Shell.Grab.{landing, land, drop_move}

module _ {sm : Smithay} (env : Env sm) where
  -- Setting the focus on a seat with a keyboard focuses the surface.
  pub set_focus_told :
      (sh : Shell sm) (d : World sm) (surface : Option WlSurface) (seat : Seat)
      (serial : Option Serial)
      → env.has_keyboard seat ≡ true
      → (d' : World sm) × (set_focus env sh d surface seat serial ≡ ok d')
        × (get_active_focus d' seat ≡ surface)
        × SameSlots d d'
  unfolding set_focus
  set_focus_told sh d surface seat serial kb =
      let (d1, runs, same) = focus_window-SameSlots env sh d surface seat in
      (
        focused env d1 surface seat serial,
        rw (runs, kb) (rw (set_active_focus-eq d1 seat surface)),
        get_active_focus-focused env d1 surface seat serial,
        λ q. focused-SameSlots env d1 surface seat serial q ∙ same q,
      )

  pub set_focus_lem :
      (sh : Shell sm) (d : World sm) (surface : WlSurface) (seat : Seat) (serial : Option Serial)
      → env.has_keyboard seat ≡ true
      → (d' : World sm) × (set_focus env sh d (some surface) seat serial ≡ ok d')
        × (get_active_focus d' seat ≡ some surface)
        × SameSlots d d'
  set_focus_lem sh d surface seat serial kb = set_focus_told sh d (some surface) seat serial kb

  -- Letting go of a live window, on a seat with a keyboard and an active output, maps it on the
  -- active workspace where the pointer carried it and nowhere else, gives it the focus, and empties
  -- the seat's move grab.
  pub drop_move-lands :
      (sh : Shell sm) (ws : Workspace sm) (rest : List (Workspace sm)) (d : World sm) (seat : Seat)
      (grab : MoveGrabState (PointF sm)) (p : PointF sm) (o : Output) (lo hi : Size)
      → sh.workspaces ≡ ws ∷ rest
      → (d.seat_data seat).move_grab ≡ some (some grab)
      → (d.seat_data seat).active_output ≡ some o
      → env.pointer seat ≡ some p
      → env.role_sizes grab.window ≡ some (lo, hi)
      → env.alive grab.window ≡ true
      → env.has_keyboard seat ≡ true
      → (ws' : Workspace sm) × (d' : World sm) × (drop_move env sh d seat
          ≡ ok (record sh { workspaces = ws' ∷ rest }, d'))
        × (has ws'.layer.windows grab.window ≡ true)
        × ((v : Window)
            → sm.window_location ws'.space v ≡ (
                if grab.window == v
                then some (landing env grab p)
                else sm.window_location ws.space v))
        × (get_active_focus d' seat ≡ some (env.wl_surface grab.window))
        × ((d'.seat_data seat).move_grab ≡ some none)
  unfolding drop_move land set_workspace
  drop_move-lands sh ws rest d seat grab p o lo hi e_ws e_grab e_out e_p e_sizes live kb =
      let d0 = set_seat d seat (record (d.seat_data seat) { move_grab = some none }) in
      let w = grab.window in
      let at = landing env grab p in
      let out : (d0.seat_data seat).active_output ≡ some o = rw (==-refl seat) e_out in
      let (d1, maps, seats) =
        map_floating_lem env ws.layer ws.space d0 w seat at o lo hi out e_sizes in
      let ws' = record ws {
        space = sm.map_window ws.space w at (floating_index sm) false;
        layer = record ws.layer { windows = insert_window ws.layer.windows w };
      } in
      let sh' = record sh { workspaces = ws' ∷ rest } in
      let (d2, focuses, focus, same) = set_focus_lem sh' d1 (env.wl_surface w) seat none kb in
      (
        ws',
        d2,
        rw (e_grab, e_p) (rw (live, e_ws) (rw maps (rw focuses refl))),
        has-insert_window ws.layer.windows w,
        λ v. sm.window_location-map_window ws.space w at (floating_index sm) false v,
        focus,
        ap (λ s. s.move_grab) (same seat)
            ∙ ap (λ f. (f seat).move_grab) seats
            ∙ rw (==-refl seat) refl,
      )
