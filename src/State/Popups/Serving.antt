-- ===== src/State/Popups/Serving.antt =====
-- src/state/xdg_shell.rs and src/state/layer_shell.rs: the requests of popups always run through.
use electrum.Prelude.{
  Bool-cases, Option-cases, ok, Returns, ℕ, ◌≡◌, refl, ◌∙◌, inl, inr, true, some,
}
use electrum.Smithay.{WlSurface, Seat, Popup, PopupGrab, Serial, Smithay}
use electrum.World.{
  ungrab_popup, keyboard_grab, pointer_grab, configure_popup, set_positioner, track_popup, World,
  Env, emit, set_seat,
}
use electrum.Workspace.{Workspace}
use electrum.Shell.{Shell, active_workspace}
use electrum.Shell.Common.{CommonState}
use electrum.Shell.SetFocus.Slots.{SameSlots, set_seat-SameSlots, set_common_focus-SameSlots}
use electrum.State.Compositor.Total.{Holds}
use electrum.State.Popups.{
  configure_and_track, new_popup, reposition_request, keyboard_is_taken, pointer_is_taken,
  grab_pointer, grab_for_popup,
}
use electrum.State.Popups.Grab.{hold_popup_grab_lem}

module _ {sm : Smithay} (env : Env sm) where
  pub configure_and_track_total :
      (d : World sm) (popup : Popup)
      → ((p : Popup) → env.tracks_popup p ≡ true)
      → Returns (SameSlots d) (configure_and_track env d popup)
  unfolding configure_and_track
  configure_and_track_total d popup tracks = elim (Bool-cases (env.popup_configures popup)) [
    | inl e ↦ (
      emit (emit d (configure_popup popup)) (track_popup popup),
      rw (configure_and_track, e, tracks popup) refl,
      λ q. refl,
    )
    | inr e ↦ (d, rw (configure_and_track, e) refl, λ q. refl)
  ]

  pub new_popup_total :
      (d : World sm) (popup : Popup) (positioner : ℕ)
      → ((p : Popup) → env.tracks_popup p ≡ true)
      → Returns (SameSlots d) (new_popup env d popup positioner)
  unfolding new_popup
  new_popup_total d popup positioner tracks =
      let d1 = emit d (set_positioner popup positioner) in
      let (d2, runs, same) = configure_and_track_total d1 popup tracks in
      elim (Bool-cases (env.has_parent_surface popup)) [
        | inl e ↦ (d2, rw (new_popup, e) runs, same)
        | inr e ↦ (d1, rw (new_popup, e) refl, λ q. refl)
      ]

  pub reposition_request-SameSlots :
      (d : World sm) (popup : Popup) (positioner token : ℕ)
      → SameSlots d (reposition_request env d popup positioner token)
  unfolding reposition_request
  reposition_request-SameSlots d popup positioner token q =
      elim (Bool-cases (env.popup_configures popup)) [
        | inl e ↦ rw (reposition_request, e) refl
        | inr e ↦ rw (reposition_request, e) refl
      ]

  grab_pointer_total :
      (c : CommonState sm) (d : World sm) (seat : Seat) (grab : PopupGrab) (serial : Serial)
      → (d' : World sm) × (grab_pointer env c d seat grab serial ≡ ok (c, d')) × SameSlots d d'
  unfolding grab_pointer
  grab_pointer_total c d seat grab serial =
      let d1 = emit d (pointer_grab seat grab serial) in
      let s = record (d.seat_data seat) { popup_grab = some (some grab) } in
      elim (Option-cases (env.pointer seat)) [
        | inl e ↦ (
          set_seat d seat s,
          rw (grab_pointer, e) (rw (hold_popup_grab_lem env d seat grab) refl),
          set_seat-SameSlots d seat s refl,
        )
        | inr (p, e) ↦ elim (Bool-cases (pointer_is_taken env seat grab serial)) [
          | inl f ↦ (emit d (ungrab_popup grab), rw (grab_pointer, e) (rw f refl), λ q. refl)
          | inr f ↦ (
            set_seat d1 seat s,
            rw (grab_pointer, e) (rw f (rw (hold_popup_grab_lem env d1 seat grab) refl)),
            set_seat-SameSlots d1 seat s refl,
          )
        ]
      ]

  -- The grab of a popup, with what is left of the shell.
  pub grab_for_popup_total :
      (c : CommonState sm) (ws : Workspace sm) (d : World sm) (surface : WlSurface) (seat : Seat)
      (serial : Serial)
      → active_workspace c.shell.workspaces ≡ ok ws
      → (r : Shell sm × World sm) × (grab_for_popup env c d surface seat serial
          ≡ ok (record c { shell = r.0 }, r.1))
        × Holds env c.shell d r
  unfolding grab_for_popup
  grab_for_popup_total c ws d surface seat serial first =
      elim (Option-cases (env.grab_popup surface seat serial)) [
        | inl e ↦ ((c.shell, d), rw (grab_for_popup, e) refl, ((ws, first), refl, λ q. refl))
        | inr (grab, e) ↦ elim (Bool-cases (env.has_keyboard seat)) [
          | inr kb ↦
              let (d', grabs, same) = grab_pointer_total c d seat grab serial in
              ((c.shell, d'), rw (grab_for_popup, e, kb) grabs, ((ws, first), refl, same))
          | inl kb ↦ elim (Bool-cases (keyboard_is_taken env seat grab serial)) [
            | inl f ↦ (
              (c.shell, emit d (ungrab_popup grab)),
              rw (grab_for_popup, e, kb) (rw f refl),
              ((ws, first), refl, λ q. refl),
            )
            | inr f ↦
                let (sh', ws', d1, focuses, first', outs, same) =
                  set_common_focus-SameSlots env c ws d (env.current_grab grab) seat (some serial)
                    first in
                let c' : CommonState sm = record c { shell = sh' } in
                let (d2, grabs, same') =
                  grab_pointer_total c' (emit d1 (keyboard_grab seat grab serial)) seat grab
                    serial in
                (
                  (sh', d2),
                  rw (grab_for_popup, e, kb) (rw f (rw focuses grabs)),
                  ((ws', first'), outs, λ q. same' q ∙ same q),
                )
          ]
        ]
      ]
