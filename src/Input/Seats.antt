-- ===== src/Input/Seats.antt =====
-- src/input/mod.rs: a new seat and the slots of its user data; the callback of its pointer.
use electrum.Prelude.{if◌then◌else◌, Outcome, ok, panic, ◌>>=◌, unwrap, none, some, []}
use electrum.Smithay.{Seat, Smithay}
use electrum.World.{SeatData, World, Env, set_seat}

module _ {sm : Smithay} where
  -- The slots that `add_seat` puts into the user data. The one for the seat's id is commented out.
  unfoldable pub with_slots : SeatData sm → SeatData sm
  with_slots s = record s {
    devices = (sm.insert_if_missing s.devices []).0;
    supressed_keys = (sm.insert_if_missing s.supressed_keys []).0;
    move_grab = (sm.insert_if_missing s.move_grab none).0;
    cursor_status = (sm.insert_if_missing s.cursor_status sm.default_cursor).0;
  }

  -- `add_seat`: it fails when the keyboard does.
  unfoldable pub add_seat : Env sm → World sm → Seat → Outcome (World sm)
  add_seat env d seat =
      if env.add_keyboard seat then ok (set_seat d seat (with_slots (d.seat_data seat))) else panic

  -- What a seat's pointer calls when a client sets the cursor.
  unfoldable pub set_cursor : World sm → Seat → sm.CursorImage → Outcome (World sm)
  set_cursor d seat status = do
    _ ← unwrap (d.seat_data seat).cursor_status
    ok (set_seat d seat (record (d.seat_data seat) { cursor_status = some status }))
