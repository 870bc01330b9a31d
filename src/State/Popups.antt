-- ===== src/State/Popups.antt =====
-- src/state/xdg_shell.rs and src/state/layer_shell.rs: popups, and a popup that grabs the keyboard and the pointer.
pub mod Grab
pub mod Serving
use electrum.Prelude.{
  if◌then◌else◌, Outcome, ok, panic, ◌>>=◌, unwrap, unwrap_or, ℕ, Bool, not, ◌&&◌, ◌||◌, none, some,
}
use electrum.Smithay.{WlSurface, Seat, Popup, PopupGrab, Serial, Smithay}
use electrum.Smithay.{Window}
use electrum.World.{
  pointer, ungrab_popup, keyboard_grab, pointer_grab, configure_popup, set_positioner, track_popup,
  send_repositioned, World, Env, emit, set_seat,
}
use electrum.Shell.Common.{CommonState, set_common_focus}

module _ {sm : Smithay} (env : Env sm) where
  -- A popup that can be configured is tracked.
  unfoldable pub configure_and_track : World sm → Popup → Outcome (World sm)
  configure_and_track d popup =
      let tracked =
        if env.tracks_popup popup
        then ok (emit (emit d (configure_popup popup)) (track_popup popup))
        else panic in
      if env.popup_configures popup then tracked else ok d

  -- `XdgShellHandler::new_popup`; a positioner is a number. `unconstrain_popup` is empty.
  unfoldable pub new_popup : World sm → Popup → ℕ → Outcome (World sm)
  new_popup d popup positioner =
      let d1 = emit d (set_positioner popup positioner) in
      let configured = configure_and_track d1 popup in
      if env.has_parent_surface popup then configured else ok d1

  -- `WlrLayerShellHandler::new_popup`
  unfoldable pub new_layer_popup : World sm → Popup → Outcome (World sm)
  new_layer_popup d popup = configure_and_track d popup

  -- `reposition_request`; a configure that fails is a warning.
  unfoldable pub reposition_request : World sm → Popup → ℕ → ℕ → World sm
  reposition_request d popup positioner token =
      let d1 = emit (emit d (set_positioner popup positioner)) (send_repositioned popup token) in
      if env.popup_configures popup then emit d1 (configure_popup popup) else d1

  -- Something else grabs the keyboard: neither the press of the serial nor the grab before.
  unfoldable pub keyboard_is_taken : Seat → PopupGrab → Serial → Bool
  keyboard_is_taken seat grab serial =
      env.keyboard_grabbed seat
      && not (
          env.keyboard_has_grab seat serial
          || env.keyboard_has_grab seat (unwrap_or (env.previous_serial grab) serial))

  unfoldable pub pointer_is_taken : Seat → PopupGrab → Serial → Bool
  pointer_is_taken seat grab serial =
      env.pointer_grabbed seat
      && not (
          env.has_grab seat serial
          || env.has_grab seat (unwrap_or (env.previous_serial grab) (env.grab_serial grab)))

  -- `insert_if_missing`, `get().unwrap()` and `set`.
  pub hold_popup_grab : World sm → Seat → PopupGrab → Outcome (World sm)
  hold_popup_grab d seat grab = do
    _ ← unwrap (sm.insert_if_missing (d.seat_data seat).popup_grab none).0
    ok (set_seat d seat (record (d.seat_data seat) { popup_grab = some (some grab) }))

  -- The part for the pointer, and what follows it.
  pub grab_pointer :
      CommonState sm → World sm → Seat → PopupGrab → Serial → Outcome (CommonState sm × World sm)
  grab_pointer c d seat grab serial =
      let d1 = emit d (pointer_grab seat grab serial) in
      let held = hold_popup_grab d seat grab in
      let held1 = hold_popup_grab d1 seat grab in
      elim (env.pointer seat) [
        | none ↦ do d' ← held; ok (c, d')
        | some _ ↦
            if pointer_is_taken seat grab serial
            then ok (c, emit d (ungrab_popup grab))
            else (do d' ← held1; ok (c, d'))
      ]

  -- `XdgShellHandler::grab`
  pub grab_for_popup :
      CommonState sm → World sm → WlSurface → Seat → Serial → Outcome (CommonState sm × World sm)
  grab_for_popup c d surface seat serial = elim (env.grab_popup surface seat serial) [
    | none ↦ ok (c, d)
    | some grab ↦
        let without_keyboard = grab_pointer c d seat grab serial in
        let with_keyboard : Outcome (CommonState sm × World sm) = (do
          (c', d') ← set_common_focus env c d (env.current_grab grab) seat (some serial)
          grab_pointer c' (emit d' (keyboard_grab seat grab serial)) seat grab serial) in
        if not (env.has_keyboard seat)
        then without_keyboard
        else if keyboard_is_taken seat grab serial
        then ok (c, emit d (ungrab_popup grab))
        else with_keyboard
  ]
