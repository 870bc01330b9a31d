-- ===== src/Input/Events.antt =====
-- src/input/mod.rs: `process_input_event`, what the compositor does with the events of devices.
pub mod Target
pub mod Motion
pub mod Place
pub mod Press
pub mod Ready
pub mod Total
pub mod Safety
use electrum.Prelude.{
  ◌==◌, if◌then◌else◌, length, find, Outcome, ok, panic, ◌>>=◌, unwrap, unwrap_or, ℕ, Bool, true,
  false, not, ◌&&◌, Option, none, some, List, [], ◌∷◌,
}
use electrum.Prelude.Int.{ℤ, ◌+ℤ◌}
use electrum.Smithay.{Output, Seat, Serial, Smithay}
use electrum.Smithay.Geometry.{wrap_i32, Size}
use electrum.World.{
  pointer, AxisSource, wheel, finger, continuous, PointF, AxisPart, AxisFrame, pointer_motion,
  pointer_button, pointer_axis, key_input, World, Env, sub_point, add_point, point_to_f64, emit,
  set_seat,
}
use electrum.State.Output.{geometry, active_output, set_active_output}
use electrum.Shell.{Shell, active_workspace, take_serial}
use electrum.Shell.Common.{CommonState, set_common_focus}
use electrum.Input.Devices.{Device, Devices, add_device, remove_device, has_device}
use electrum.Input.Under.{surface_under, focus_under}

-- `AxisSource` of the backend.
pub data EventSource : Type 0 where
  continuous_source finger_source wheel_source wheel_tilt : EventSource

-- The source that the client is told.
abbrev pub to_wl_source : EventSource → AxisSource
to_wl_source continuous_source = continuous
to_wl_source finger_source = finger
to_wl_source wheel_source = wheel
to_wl_source wheel_tilt = wheel

abbrev pub is_finger : AxisSource → Bool
is_finger finger = true
is_finger wheel = false
is_finger continuous = false

module _ (sm : Smithay) where
  -- The amounts of a `PointerAxisEvent` on one axis.
  pub record Amounts : Type 0 where
    pub amount : Option sm.Float
    pub amount_discrete : Option sm.Float

  -- `InputEvent`, as far as it is handled. An absolute position is transformed to a size by the
  -- backend.
  pub data InputEvent : Type 0 where
    device_added : Device → InputEvent
    device_removed : Device → InputEvent
    key_event : Device → ℕ → Bool → InputEvent
    motion_event : Device → PointF sm → InputEvent
    motion_absolute : Device → (Size → PointF sm) → InputEvent
    button_event : Device → ℕ → Bool → InputEvent
    axis_event : Device → EventSource → Amounts → Amounts → InputEvent
    other_event : InputEvent

module _ {sm : Smithay} where
  -- `userdata.get::<Devices>().unwrap()`
  abbrev pub devices_of : World sm → Seat → Outcome Devices
  devices_of d seat = unwrap (d.seat_data seat).devices

  abbrev pub put_devices : World sm → Seat → Devices → World sm
  put_devices d seat m = set_seat d seat (record (d.seat_data seat) { devices = some m })

  -- The seat at which a loop over the seats stops: the first that has the device.
  pub seat_of_device : World sm → List Seat → Device → Outcome (Option Seat)
  seat_of_device d [] device = ok none
  seat_of_device d (seat ∷ seats) device = do
    m ← devices_of d seat
    let later = seat_of_device d seats device
    if has_device m device then ok (some seat) else later

  -- `amount(axis).unwrap_or_else(|| amount_discrete(axis).unwrap_or(0.0) * 3.0)`
  abbrev pub axis_amount : Amounts sm → sm.Float
  axis_amount a = elim a.amount [
    | some x ↦ x
    | none ↦ sm.mul_float (unwrap_or a.amount_discrete sm.zero_float) sm.three_float
  ]

  -- What the frame says of one axis.
  pub axis_part : AxisSource → Amounts sm → AxisPart sm
  axis_part source a =
      if not (sm.is_zero (axis_amount a))
      then record {
        value = some (axis_amount a);
        discrete = elim a.amount_discrete [ none ↦ none | some x ↦ some (sm.to_i32 x) ];
        stop = false;
      }
      else record { value = none; discrete = none; stop = is_finger source }

  pub axis_frame : EventSource → Amounts sm → Amounts sm → AxisFrame sm
  axis_frame source horizontal vertical = record {
    source = to_wl_source source;
    horizontal = axis_part (to_wl_source source) horizontal;
    vertical = axis_part (to_wl_source source) vertical;
  }

module _ {sm : Smithay} (env : Env sm) where
  -- `space_relative_output_geometry`, over `f64`.
  abbrev pub relative_to : PointF sm → Output → PointF sm
  relative_to p o = sub_point sm p (point_to_f64 sm (env.current_location o))

  -- `Keyboard`: no seat ends the loop.
  pub send_keys : World sm → List Seat → Device → ℕ → Bool → Outcome (World sm)
  send_keys d [] device key state = ok d
  send_keys d (seat ∷ seats) device key state = do
    m ← devices_of d seat
    let (serial, d1) = take_serial env d
    let pressed =
        if env.has_keyboard seat then ok (emit d1 (key_input seat key state serial)) else panic
    d2 ← if has_device m device then pressed else ok d
    send_keys d2 seats device key state

  -- `0.0f64.max(v).min((start + length) as f64)`
  abbrev pub clamp_float : sm.Float → ℤ → ℤ → sm.Float
  clamp_float v start length =
      sm.min_float (sm.max_float sm.zero_float v) (sm.of_i32 (wrap_i32 (start +ℤ length)))

  -- The output that the pointer is moved to.
  unfoldable pub output_at : Shell sm → Output → PointF sm → Output
  output_at sh current p =
      unwrap_or (find (λ o. sm.contains_float (geometry env o) p.fx p.fy) sh.outputs) current

  unfoldable pub clamp_to : PointF sm → Output → PointF sm
  clamp_to p o =
      let g = geometry env o in
      record { fx = clamp_float p.fx g.loc.x g.size.w; fy = clamp_float p.fy g.loc.y g.size.h }

  -- The pointer's `motion`, with what is below it.
  pub send_motion : Shell sm → World sm → PointF sm → Output → Outcome (World sm)
  send_motion sh d p o = do
    let (serial, d1) = take_serial env d
    ws ← active_workspace sh.workspaces
    under ← surface_under env p (relative_to p o) o (geometry env o) ws
    ok (emit d1 (pointer_motion p under serial))

  -- `PointerMotion`
  pub move_pointer : Shell sm → World sm → Seat → PointF sm → Outcome (World sm)
  move_pointer sh d seat delta = do
    current ← active_output env sh d seat
    at ← unwrap (env.pointer seat)
    let p = add_point sm at delta
    let o = output_at sh current p
    d1 ← if o == current then ok d else set_active_output env d seat o
    send_motion sh d1 (clamp_to p o) o

  -- `PointerMotionAbsolute`
  pub place_pointer : Shell sm → World sm → Seat → (Size → PointF sm) → Outcome (World sm)
  place_pointer sh d seat transformed = do
    o ← active_output env sh d seat
    let g = geometry env o
    _ ← unwrap (env.pointer seat)
    send_motion sh d (add_point sm (point_to_f64 sm g.loc) (transformed g.size)) o

  -- The press of a button that nothing grabs gives the focus to what is below the pointer.
  pub focus_pressed :
      CommonState sm → World sm → Seat → PointF sm → Serial → Outcome (CommonState sm × World sm)
  focus_pressed c d seat p serial = do
    o ← active_output env c.shell d seat
    ws ← active_workspace c.shell.workspaces
    under ← focus_under env p (relative_to p o) o (geometry env o) ws
    set_common_focus env c d under seat (some serial)

  -- `PointerButton`
  pub press_button :
      CommonState sm → World sm → Seat → ℕ → Bool → Outcome (CommonState sm × World sm)
  press_button c d seat button pressed = do
    p ← unwrap (env.pointer seat)
    let (serial, d1) = take_serial env d
    let focused = focus_pressed c d1 seat p serial
    (c', d2) ←
        if pressed
          && not (env.pointer_grabbed seat)
          && not (env.has_keyboard seat && env.keyboard_grabbed seat)
        then focused
        else ok (c, d1)
    ok (c', emit d2 (pointer_button button pressed serial))

  -- What one seat does.
  abbrev pub at_seat :
      CommonState sm
      → World sm
      → Device
      → (Seat → Outcome (CommonState sm × World sm))
      → Outcome (CommonState sm × World sm)
  at_seat c d device act = do
    found ← seat_of_device d c.seats device
    elim found [ none ↦ ok (c, d) | some seat ↦ act seat ]

  -- `State::process_input_event`
  pub process_input_event :
      CommonState sm → World sm → InputEvent sm → Outcome (CommonState sm × World sm)
  process_input_event c d (device_added device) = do
    m ← devices_of d c.last_active_seat
    ok (c, put_devices d c.last_active_seat (add_device m device).0)
  process_input_event c d (device_removed device) =
      at_seat c d device
        (λ seat. do m ← devices_of d seat; ok (c, put_devices d seat (remove_device m device).0))
  process_input_event c d (key_event device key state) = do
    d' ← send_keys d c.seats device key state
    ok (c, d')
  process_input_event c d (motion_event device delta) =
      at_seat c d device (λ seat. do d' ← move_pointer c.shell d seat delta; ok (c, d'))
  process_input_event c d (motion_absolute device transformed) =
      at_seat c d device (λ seat. do d' ← place_pointer c.shell d seat transformed; ok (c, d'))
  process_input_event c d (button_event device button pressed) =
      at_seat c d device (λ seat. press_button c d seat button pressed)
  process_input_event c d (axis_event device source horizontal vertical) =
      at_seat c d device (λ seat. do
        _ ← unwrap (env.pointer seat)
        ok (c, emit d (pointer_axis (axis_frame source horizontal vertical))))
  process_input_event c d other_event = ok (c, d)
