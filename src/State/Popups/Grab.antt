-- ===== src/State/Popups/Grab.antt =====
-- src/state/xdg_shell.rs: when a popup has its grab.
use electrum.Prelude.{Option-cases, ok, ◌≡◌, refl, inl, inr, Option, none, some}
use electrum.Smithay.{Seat, PopupGrab, Smithay}
use electrum.World.{World, Env, set_seat}
use electrum.Workspace.{Workspace}
use electrum.State.Popups.{hold_popup_grab}

module _ {sm : Smithay} (env : Env sm) where
  pub hold_popup_grab_lem :
      (d : World sm) (seat : Seat) (grab : PopupGrab)
      → hold_popup_grab env d seat grab
        ≡ ok (set_seat d seat (record (d.seat_data seat) { popup_grab = some (some grab) }))
  unfolding hold_popup_grab
  hold_popup_grab_lem d seat grab = elim (Option-cases (d.seat_data seat).popup_grab) [
    | inl e ↦ rw (hold_popup_grab, e) (rw (sm.insert_missing {A = Option PopupGrab} none) refl)
    | inr (old, e) ↦
        rw (hold_popup_grab, e) (rw (sm.insert_present {A = Option PopupGrab} old none) refl)
  ]
