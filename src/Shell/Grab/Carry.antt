-- ===== src/Shell/Grab/Carry.antt =====
-- src/shell/grab.rs: a window between the pointer's taking it and letting it go.
use electrum.Prelude.{
  ◌==◌, if◌then◌else◌, ==-refl, find, ok, ◌≡◌, refl, ◌∙◌, true, false, Option, none, some, List,
  ◌∷◌,
}
use electrum.Smithay.{Window, Output, Seat, Serial, all, maximized, has, Smithay}
use electrum.Smithay.Geometry.{Point, Size}
use electrum.World.{
  MoveGrabState, PointF, set_grab, World, Env, update, to_i32_round, emit, set_seat,
}
use electrum.Workspace.{Workspace, is_fullscreen}
use electrum.Layout.Remembering.{unmapped, remembered, unmap_floating_lem, put_back}
use electrum.State.Output.{geometry}
use electrum.Focus.{get_active_focus}
use electrum.Shell.Grab.Drop.{drop_move-lands}
use electrum.Shell.{Shell, space_for_window}
use electrum.Shell.Grab.{put_space_for_window, lift, begin_move, move_request, landing, drop_move}

module _ {sm : Smithay} (env : Env sm) where
  -- A floating window that a seat's pointer can take: it is on the first workspace, where the seat's
  -- pointer is over one of its outputs.
  pub record IsHeld (sh : Shell sm) (ws : Workspace sm) (rest : List (Workspace sm)) (d : World sm)
      (seat : Seat) (w : Window) (p : PointF sm) (at : Point) : Type 0 where
    pub first : sh.workspaces ≡ ws ∷ rest
    pub shown : (v : Window) × (sm.window_for_surface ws.space (env.wl_surface w) all ≡ some v)
    pub windowed : is_fullscreen ws.fullscreen w ≡ false
    pub points : env.pointer seat ≡ some p
    pub over :
        (o : Output) × (find
            (λ o. sm.contains (geometry env o) (to_i32_round sm p))
            (sm.outputs_for_window ws.space w)
          ≡ some o)
    pub located : sm.window_location ws.space w ≡ some at
    pub floats : sm.contains_state (env.current_states w) maximized ≡ false
    pub asked : sm.contains_state (d.pending w).states maximized ≡ false
    pub slot : (g : Option (MoveGrabState (PointF sm))) × ((d.seat_data seat).move_grab ≡ some g)

  -- Taking a floating window with the pointer takes it out of its layout and off the screen, keeps in
  -- the seat's slot where it stood and where the pointer was, and starts the pointer's grab; other
  -- windows stay where they are.
  pub move_request-takes :
      (sh : Shell sm) (ws : Workspace sm) (rest : List (Workspace sm)) (d : World sm) (seat : Seat)
      (w : Window) (p : PointF sm) (at : Point) (serial : Serial)
      → IsHeld sh ws rest d seat w p at
      → let grab : MoveGrabState (PointF sm) = record {
        window = w;
        initial_cursor_location = p;
        initial_window_location = at;
      } in
        (ws' : Workspace sm) × (d' : World sm) × (move_request env sh d w seat serial
          ≡ ok (record sh { workspaces = ws' ∷ rest }, d'))
        × (ws'.layer ≡ unmapped env ws.layer ws.space d w)
        × ((v : Window)
            → sm.window_location ws'.space v
              ≡ (if w == v then none else sm.window_location ws.space v))
        × ((d'.seat_data seat).move_grab ≡ some (some grab))
        × ((d'.seat_data seat).active_output ≡ (d.seat_data seat).active_output)
        × (d'.effects ≡ set_grab seat w serial ∷ d.effects)
  unfolding move_request begin_move lift put_space_for_window space_for_window
  move_request-takes sh ws rest d seat w p at serial h =
      let grab : MoveGrabState (PointF sm) = record {
        window = w;
        initial_cursor_location = p;
        initial_window_location = at;
      } in
      let d1 = record d {
        last_geometry = update d.last_geometry w (some (remembered env ws.layer ws.space d w at));
      } in
      let d2 = set_seat d1 seat (record (d1.seat_data seat) { move_grab = some (some grab) }) in
      (
        record ws {
          space = sm.unmap_window ws.space w;
          layer = unmapped env ws.layer ws.space d w;
        },
        emit d2 (set_grab seat w serial),
        rw (move_request, h.points, h.first)
            (rw (space_for_window, h.shown.1)
              (rw (h.windowed, h.over.1, h.located)
                (rw (h.floats, unmap_floating_lem env ws.layer ws.space d w at h.located h.asked)
                  (rw h.slot.1 (rw (put_space_for_window, h.shown.1) refl))))),
        refl,
        λ v. sm.window_location-unmap_window ws.space w v,
        rw (==-refl seat) refl,
        rw (==-refl seat) refl,
        refl,
      )

  -- A floating window that is taken and let go with the pointer where it was stands where it stood,
  -- provided that adding the pointer's offset of nothing to a place rounds to that place; it is in the
  -- layout again and has the focus, the other windows have not moved, and the seat carries nothing.
  pub drop_move-move_request :
      (sh : Shell sm) (ws : Workspace sm) (rest : List (Workspace sm)) (d : World sm) (seat : Seat)
      (w : Window) (p : PointF sm) (at : Point) (serial : Serial) (o : Output) (lo hi : Size)
      → IsHeld sh ws rest d seat w p at
      → landing env
          (record { window = w; initial_cursor_location = p; initial_window_location = at })
          p
        ≡ at
      → (d.seat_data seat).active_output ≡ some o
      → env.role_sizes w ≡ some (lo, hi)
      → env.alive w ≡ true
      → env.has_keyboard seat ≡ true
      → (ws1 : Workspace sm) × (d1 : World sm) × (ws2 : Workspace sm) × (d2 : World sm)
        × (move_request env sh d w seat serial ≡ ok (record sh { workspaces = ws1 ∷ rest }, d1))
        × (drop_move env (record sh { workspaces = ws1 ∷ rest }) d1 seat
            ≡ ok (record sh { workspaces = ws2 ∷ rest }, d2))
        × ((v : Window) → sm.window_location ws2.space v ≡ sm.window_location ws.space v)
        × (has ws2.layer.windows w ≡ true)
        × (get_active_focus d2 seat ≡ some (env.wl_surface w))
        × ((d2.seat_data seat).move_grab ≡ some none)
  drop_move-move_request sh ws rest d seat w p at serial o lo hi h lands active sizes live kb =
      let grab : MoveGrabState (PointF sm) = record {
        window = w;
        initial_cursor_location = p;
        initial_window_location = at;
      } in
      let (ws1, d1, takes, _, gone, slot, out, _) =
        move_request-takes sh ws rest d seat w p at serial h in
      let sh1 = record sh { workspaces = ws1 ∷ rest } in
      let (ws2, d2, drops, listed, stands, focus, empty) =
        drop_move-lands env sh1 ws1 rest d1 seat grab p o lo hi refl slot (out ∙ active) h.points
          sizes live kb in
      (
        ws1,
        d1,
        ws2,
        d2,
        takes,
        drops,
        λ v. stands v ∙ rw (lands, gone v) (put_back env ws.layer ws.space d w at h.located v),
        listed,
        focus,
        empty,
      )
