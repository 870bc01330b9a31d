-- ===== src/State/DataDevice.antt =====
-- src/state/data_device.rs: the icon of a drag.
use electrum.Prelude.{
  ==-refl, Option-cases, Outcome, ok, ◌>>=◌, unwrap, ◌≡◌, refl, inl, inr, Option, none, some,
}
use electrum.Smithay.{WlSurface, Seat, Smithay}
use electrum.World.{World, set_seat}

module _ {sm : Smithay} where
  -- `ClientDndGrabHandler::started`
  pub started : World sm → Seat → Option WlSurface → Outcome (World sm)
  started d seat icon = do
    _ ← unwrap (sm.insert_if_missing (d.seat_data seat).dnd_icon none).0
    ok (set_seat d seat (record (d.seat_data seat) { dnd_icon = some icon }))

  -- `ClientDndGrabHandler::dropped`
  pub dropped : World sm → Seat → Outcome (World sm)
  dropped d seat = do
    _ ← unwrap (d.seat_data seat).dnd_icon
    ok (set_seat d seat (record (d.seat_data seat) { dnd_icon = some none }))

  -- A drag, from its start to its end, runs through and leaves no icon, whatever was there before;
  -- in between the seat has the icon of the drag.
  pub dropped-started :
      (d : World sm) (seat : Seat) (icon : Option WlSurface)
      → (d' : World sm) × (d'' : World sm) × (started d seat icon ≡ ok d')
        × ((d'.seat_data seat).dnd_icon ≡ some icon)
        × (dropped d' seat ≡ ok d'')
        × ((d''.seat_data seat).dnd_icon ≡ some none)
  unfolding started dropped
  dropped-started d seat icon =
      let d' = set_seat d seat (record (d.seat_data seat) { dnd_icon = some icon }) in
      let d'' = set_seat d' seat (record (d'.seat_data seat) { dnd_icon = some none }) in
      (
        d',
        d'',
        (elim (Option-cases (d.seat_data seat).dnd_icon) [
          | inl e ↦ rw (started, e) (rw (sm.insert_missing {A = Option WlSurface} none) refl)
          | inr (old, e) ↦
              rw (started, e) (rw (sm.insert_present {A = Option WlSurface} old none) refl)
        ]),
        rw (==-refl seat) refl,
        rw (dropped, ==-refl seat) refl,
        rw (==-refl seat) refl,
      )
