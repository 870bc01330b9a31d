-- ===== src/State/Compositor/Commit.antt =====
-- src/state/compositor.rs: how a pending window gets on the screen.
use electrum.Prelude.{
  ◌==◌, if◌then◌else◌, Bool-cases, Option-cases, find, ok, ◌≡◌, refl, ◌∙◌, subst, inl, inr, true,
  false, ◌&&◌, none, some, List, [], ◌∷◌,
}
use electrum.Prelude.Int.{pos}
use electrum.Smithay.{Window, WlSurface, Output, Seat, Smithay}
use electrum.Smithay.Geometry.{Point}
use electrum.World.{
  send_configure, load_buffer, commit_popups, commit_space, World, Env, emit, set_pending,
}
use electrum.Workspace.{Workspace}
use electrum.Focus.{get_active_focus}
use electrum.State.Output.{active_output}
use electrum.Shell.{Shell, set_workspace}
use electrum.Shell.Mapping.{take_first, map_pending_window}
use electrum.Shell.Grab.Drop.{set_focus_lem}
use electrum.State.Compositor.{
  toplevel_ensure_initial_configure, commit_spaces, finalise, commit_window, commit_layer,
  commit_popup, commit,
}

abbrev pub corner : Point
corner = record { x = pos 0; y = pos 0 }

module _ {sm : Smithay} (env : Env sm) where
  commit_spaces-seats :
      (l : List (Workspace sm)) (d : World sm) (surface : WlSurface)
      → (commit_spaces env l d surface).seat_data ≡ d.seat_data
  unfolding commit_spaces
  commit_spaces-seats [] d surface = refl
  commit_spaces-seats (ws ∷ l) d surface =
      commit_spaces-seats l (emit d (commit_space ws.idx surface)) surface

  pub finalise-seats :
      (sh : Shell sm) (d : World sm) (surface : WlSurface)
      → (finalise env sh d surface).seat_data ≡ d.seat_data
  unfolding finalise
  finalise-seats sh d surface =
      let d' = commit_spaces env sh.workspaces (emit d (commit_popups surface)) surface in
      let same = commit_spaces-seats sh.workspaces (emit d (commit_popups surface)) surface in
      elim (Option-cases (find (λ o. env.has_layer_for_surface o surface) sh.outputs)) [
        | inl e ↦ rw (finalise, e) same
        | inr (o, e) ↦ rw (finalise, e) same
      ]

  get_active_focus-seats :
      (d d' : World sm) (seat : Seat)
      → d'.seat_data ≡ d.seat_data
      → get_active_focus d' seat ≡ get_active_focus d seat
  unfolding get_active_focus
  get_active_focus-seats d d' seat same = rw same refl

  -- A window that was created and whose initial configure went out is mapped by the first commit
  -- with a buffer: it leaves the pending windows, stands in the corner of the active workspace, where
  -- no other window has moved, and has the focus of the seat that it was created for.
  pub commit-maps :
      (sh : Shell sm) (ws : Workspace sm) (l : List (Workspace sm)) (d : World sm)
      (surface : WlSurface) (w : Window) (seat : Seat) (pending : List (Window × Seat)) (o : Output)
      → sh.workspaces ≡ ws ∷ l
      → find (λ e. env.wl_surface e.0 == surface) sh.pending_windows ≡ some (w, seat)
      → take_first (λ e. e.0 == w) sh.pending_windows ≡ some ((w, seat), pending)
      → find (λ e. env.layer_wl_surface e.0 == surface) sh.pending_layers ≡ none
      → env.find_popup surface ≡ none
      → env.initial_configure_sent (env.wl_surface w) ≡ true
      → env.has_buffer surface ≡ true
      → (d.seat_data seat).active_output ≡ some o
      → env.has_keyboard seat ≡ true
      → (ws' : Workspace sm) × (d' : World sm) × (commit env sh d surface
          ≡ ok (record sh { workspaces = ws' ∷ l; pending_windows = pending }, d'))
        × ((v : Window)
            → sm.window_location ws'.space v
              ≡ (if w == v then some corner else sm.window_location ws.space v))
        × (get_active_focus d' seat ≡ some (env.wl_surface w))
  unfolding commit commit_window map_pending_window commit_layer commit_popup
      toplevel_ensure_initial_configure active_output set_workspace
  commit-maps sh ws l d surface w seat pending o first found taken no_layer no_popup sent buffer
        active kb =
      let ws' = record ws { space = sm.map_window ws.space w corner 0 false } in
      let sh' = record sh { workspaces = ws' ∷ l; pending_windows = pending } in
      let d0 = emit d (load_buffer surface) in
      let (d1, focuses, focus, _) = set_focus_lem env sh' d0 (env.wl_surface w) seat none kb in
      (
        ws',
        finalise env sh' d1 surface,
        rw (commit, commit_window, found, toplevel_ensure_initial_configure, sent)
            (rw (buffer, active_output, active)
              (rw (map_pending_window, taken, first)
                (rw focuses (rw (commit_layer, no_layer) (rw (commit_popup, no_popup) refl))))),
        λ v. sm.window_location-map_window ws.space w corner 0 false v,
        get_active_focus-seats d1 (finalise env sh' d1 surface) seat (finalise-seats sh' d1 surface)
            ∙ focus,
      )

  -- A commit of a pending window's surface, when the initial configure has not been sent or there is no
  -- buffer, loads the buffer, sends the configure if it has not been sent, without a size, and ends: the
  -- shell stays as it is.
  pub commit-waits :
      (sh : Shell sm) (d : World sm) (surface : WlSurface) (w : Window) (seat : Seat)
      → find (λ e. env.wl_surface e.0 == surface) sh.pending_windows ≡ some (w, seat)
      → env.initial_configure_sent (env.wl_surface w) && env.has_buffer surface ≡ false
      → let unsized = record (d.pending w) { size = none } in
        (d' : World sm) × (commit env sh d surface ≡ ok (sh, d'))
        × (d'.seat_data ≡ d.seat_data)
        × (d'.effects ≡ (
            if env.initial_configure_sent (env.wl_surface w)
            then load_buffer surface ∷ d.effects
            else send_configure w unsized ∷ load_buffer surface ∷ d.effects))
  unfolding commit commit_window toplevel_ensure_initial_configure
  commit-waits sh d surface w seat found waits =
      elim (Bool-cases (env.initial_configure_sent (env.wl_surface w))) [
        | inl e ↦
            let no_buffer : env.has_buffer surface ≡ false =
              subst (λ b. b && env.has_buffer surface ≡ false) e waits in
            (
              emit d (load_buffer surface),
              rw (commit, commit_window, found, toplevel_ensure_initial_configure, e)
                  (rw no_buffer refl),
              refl,
              rw e refl,
            )
        | inr e ↦ (
          set_pending (emit d (load_buffer surface)) w (record (d.pending w) { size = none }),
          rw (commit, commit_window, found, toplevel_ensure_initial_configure, e) refl,
          refl,
          rw e refl,
        )
      ]
