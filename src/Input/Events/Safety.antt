-- ===== src/Input/Events/Safety.antt =====
-- src/input/mod.rs: no handler of an input event panics.
use electrum.Prelude.{ok, ◌>>=◌, unwrap, Returns, ◌≡◌, refl}
use electrum.Smithay.{Output, Smithay}
use electrum.World.{pointer_axis, World, Env, emit}
use electrum.Shell.Common.{CommonState}
use electrum.Input.Devices.{add_device, remove_device}
use electrum.Input.Events.{
  InputEvent, device_added, device_removed, key_event, motion_event, motion_absolute, button_event,
  axis_event, other_event, devices_of, put_devices, axis_frame, move_pointer, place_pointer,
  press_button, process_input_event,
}
use electrum.Input.Events.Ready.{
  Kept, IsReady, IsReady-Kept, Kept-SameDevices, Kept-put_devices, seat_is_known, slots_of,
}
use electrum.Input.Events.Total.{
  Surroundings, at_seat-Kept, move_pointer_total, place_pointer_total, send_keys_total,
  press_button-Kept,
}

module _ {sm : Smithay} (env : Env sm) where
  pub process_input_event-Kept :
      (o : Output) (c : CommonState sm) (d : World sm) (event : InputEvent sm)
      → Surroundings env c.seats
      → IsReady o c d
      → Returns (Kept c d) (process_input_event env c d event)
  unfolding process_input_event
  process_input_event-Kept o c d (device_added device) around ready =
      let (m, e) = ready.devices c.last_active_seat (seat_is_known c) in
      let m' = (add_device m device).0 in
      (
        (c, put_devices d c.last_active_seat m'),
        rw (process_input_event, e) refl,
        Kept-put_devices c d c.last_active_seat m' ready.workspace,
      )
  process_input_event-Kept o c d (device_removed device) around ready =
      at_seat-Kept env c d device
        (λ seat. do m ← devices_of d seat; ok (c, put_devices d seat (remove_device m device).0))
        ready.workspace (slots_of o c d ready)
        (λ q k.
          let (m, e) = slots_of o c d ready q k in
          let m' = (remove_device m device).0 in
          ((c, put_devices d q m'), rw e refl, Kept-put_devices c d q m' ready.workspace))
  process_input_event-Kept o c d (key_event device key state) around ready =
      let (d', sends, same) =
        send_keys_total env c.seats d device key state (slots_of o c d ready) around.keyboards in
      ((c, d'), rw sends refl, Kept-SameDevices c d d' ready.workspace same)
  process_input_event-Kept o c d (motion_event device delta) around ready =
      at_seat-Kept env c d device
        (λ seat. do d' ← move_pointer env c.shell d seat delta; ok (c, d')) ready.workspace
        (slots_of o c d ready)
        (λ q k.
          let (ws, first) = ready.workspace in
          let (p, points) = around.pointers q k in
          let (d', moves, same) =
            move_pointer_total env around.places c.shell ws o first ready.outputs d q delta p
              points in
          ((c, d'), rw moves refl, Kept-SameDevices c d d' ready.workspace same))
  process_input_event-Kept o c d (motion_absolute device transformed) around ready =
      at_seat-Kept env c d device
        (λ seat. do d' ← place_pointer env c.shell d seat transformed; ok (c, d')) ready.workspace
        (slots_of o c d ready)
        (λ q k.
          let (ws, first) = ready.workspace in
          let (p, points) = around.pointers q k in
          let (d', moves, same) =
            place_pointer_total env around.places c.shell ws o first ready.outputs d q transformed p
              points in
          ((c, d'), rw moves refl, Kept-SameDevices c d d' ready.workspace same))
  process_input_event-Kept o c d (button_event device button pressed) around ready =
      at_seat-Kept env c d device (λ seat. press_button env c d seat button pressed) ready.workspace
        (slots_of o c d ready)
        (λ q k.
          let (ws, first) = ready.workspace in
          let (p, points) = around.pointers q k in
          press_button-Kept env c ws o d q button pressed p around.places first ready.outputs
            points)
  process_input_event-Kept o c d (axis_event device source horizontal vertical) around ready =
      at_seat-Kept env c d device
        (λ seat. do
          _ ← unwrap (env.pointer seat)
          ok (c, emit d (pointer_axis (axis_frame source horizontal vertical))))
        ready.workspace (slots_of o c d ready)
        (λ q k.
          let (p, points) = around.pointers q k in
          let d' = emit d (pointer_axis (axis_frame source horizontal vertical)) in
          ((c, d'), rw points refl, Kept-SameDevices c d d' ready.workspace (λ r. refl)))
  process_input_event-Kept o c d other_event around ready =
      ((c, d), refl, Kept-SameDevices c d d ready.workspace (λ q. refl))

  -- No handler of an input event panics while the compositor is ready for events, and it stays ready:
  -- the seats keep their slot for devices, and the workspace and the one output stay. What smithay
  -- promises is that the seats have pointers and keyboards and that the layer surfaces that it finds
  -- have places.
  pub process_input_event-IsReady :
      (o : Output) (c : CommonState sm) (d : World sm) (event : InputEvent sm)
      → Surroundings env c.seats
      → IsReady o c d
      → Returns (λ r. (r.0.seats ≡ c.seats) × IsReady o r.0 r.1) (process_input_event env c d event)
  process_input_event-IsReady o c d event around ready =
      let (r, runs, kept) = process_input_event-Kept o c d event around ready in
      (r, runs, (kept.seats, IsReady-Kept o c d r ready kept))
