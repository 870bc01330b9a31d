-- ===== src/Input/Events/Total.antt =====
-- src/input/mod.rs: each handler of an input event runs through.
use electrum.Prelude.{
  ◌==◌, ==-refl, Bool-cases, Option-cases, any, Outcome, ok, Returns, ℕ, ◌≡◌, refl, ap, ◌∙◌, inl,
  inr, Bool, true, not, ◌&&◌, some, List, [], ◌∷◌, arith,
}
use electrum.Smithay.{Output, Seat, Serial, has, Smithay}
use electrum.Smithay.Geometry.{Size}
use electrum.World.{PointF, pointer_button, key_input, World, Env, add_point, point_to_f64, emit}
use electrum.Workspace.{Workspace}
use electrum.Shell.{Shell, active_workspace}
use electrum.Shell.Common.{CommonState}
use electrum.Shell.SetFocus.Slots.{set_common_focus-SameSlots}
use electrum.State.Output.{geometry, active_output}
use electrum.Input.Devices.{Device, has_device}
use electrum.Input.Under.Total.{LayersHavePlaces, surface_under_total, focus_under_total}
use electrum.Input.Events.{
  relative_to, send_keys, output_at, clamp_to, send_motion, move_pointer, place_pointer,
  focus_pressed, press_button, at_seat,
}
use electrum.Input.Events.Motion.{set_active_output-MovedTo, send_motion_lem}
use electrum.Input.Events.Ready.{
  HasDevices, Kept, SameDevices, Kept-SameDevices, seat_of_device_total,
}

module _ {sm : Smithay} (env : Env sm) where
  -- What `add_seat` and the layer maps promise: every seat has a pointer and a keyboard, and the
  -- layer surfaces below a point have a place.
  pub record Surroundings (seats : List Seat) : Type 0 where
    pub pointers : (q : Seat) → has seats q ≡ true → (p : PointF sm) × (env.pointer q ≡ some p)
    pub keyboards : (q : Seat) → has seats q ≡ true → env.has_keyboard q ≡ true
    pub places : LayersHavePlaces env

  pub at_seat-Kept :
      (c : CommonState sm) (d : World sm) (device : Device)
      (act : Seat → Outcome (CommonState sm × World sm))
      → (ws : Workspace sm) × (active_workspace c.shell.workspaces ≡ ok ws)
      → ((q : Seat) → has c.seats q ≡ true → HasDevices d q)
      → ((q : Seat) → has c.seats q ≡ true → Returns (Kept c d) (act q))
      → Returns (Kept c d) (at_seat env c d device act)
  at_seat-Kept c d device act first slots acts =
      let (found, runs, known) = seat_of_device_total d c.seats device slots in
      elim (Option-cases found) [
        | inl e ↦ ((c, d), rw (runs, e) refl, Kept-SameDevices c d d first (λ q. refl))
        | inr (seat, e) ↦
            let (r, acts_ok, kept) = acts seat (known seat e) in (r, rw (runs, e) acts_ok, kept)
      ]

  active_output_total :
      (sh : Shell sm) (d : World sm) (seat : Seat) (o : Output)
      → sh.outputs ≡ o ∷ []
      → (current : Output) × (active_output env sh d seat ≡ ok current)
  unfolding active_output
  active_output_total sh d seat o outs = elim (Option-cases (d.seat_data seat).active_output) [
    | inl e ↦ (o, rw (active_output, e) (rw outs refl))
    | inr (current, e) ↦ (current, rw (active_output, e) refl)
  ]

  module _ (places : LayersHavePlaces env) (sh : Shell sm) (ws : Workspace sm) (o : Output)
      (first : active_workspace sh.workspaces ≡ ok ws) (outs : sh.outputs ≡ o ∷ []) where
    send_motion_total :
        (d : World sm) (p : PointF sm) (at : Output)
        → Returns (SameDevices d) (send_motion env sh d p at)
    send_motion_total d p at =
        let (under, hit) =
          surface_under_total env places p (relative_to env p at) at (geometry env at) ws in
        let (d', sends, _, seats) = send_motion_lem env sh ws d p at under first hit in
        (d', sends, λ q. ap (λ f. (f q).devices) seats)

    pub move_pointer_total :
        (d : World sm) (seat : Seat) (delta p : PointF sm)
        → env.pointer seat ≡ some p
        → Returns (SameDevices d) (move_pointer env sh d seat delta)
    unfolding move_pointer
    move_pointer_total d seat delta p points =
        let (current, act) = active_output_total sh d seat o outs in
        let q = add_point sm p delta in
        let at = output_at env sh current q in
        elim (Bool-cases (at == current)) [
          | inl e ↦
              let (d', sends, same) = send_motion_total d (clamp_to env q at) at in
              (d', rw (move_pointer, act, points) (rw e sends), same)
          | inr e ↦
              let (d1, sets, moved) = set_active_output-MovedTo env d seat at in
              let (d', sends, same) = send_motion_total d1 (clamp_to env q at) at in
              (
                d',
                rw (move_pointer, act, points) (rw e (rw sets sends)),
                λ q. same q ∙ moved.devices q,
              )
        ]

    pub place_pointer_total :
        (d : World sm) (seat : Seat) (transformed : Size → PointF sm) (p : PointF sm)
        → env.pointer seat ≡ some p
        → Returns (SameDevices d) (place_pointer env sh d seat transformed)
    unfolding place_pointer
    place_pointer_total d seat transformed p points =
        let (at, act) = active_output_total sh d seat o outs in
        let g = geometry env at in
        let (d', sends, same) =
          send_motion_total d (add_point sm (point_to_f64 sm g.loc) (transformed g.size)) at in
        (d', rw (place_pointer, act, points) sends, same)

  pub send_keys_total :
      (seats : List Seat) (d : World sm) (device : Device) (key : ℕ) (state : Bool)
      → ((q : Seat) → has seats q ≡ true → HasDevices d q)
      → ((q : Seat) → has seats q ≡ true → env.has_keyboard q ≡ true)
      → Returns (SameDevices d) (send_keys env d seats device key state)
  unfolding send_keys any
  send_keys_total [] d device key state slots boards = (d, refl, λ q. refl)
  send_keys_total (seat ∷ seats) d device key state slots boards =
      let self : has (seat ∷ seats) seat ≡ true = rw (==-refl seat) refl in
      let (m, e) = slots seat self in
      let n = sm.next_serial d.serial in
      let d1 = emit (record d { serial = n }) (key_input seat key state n) in
      elim (Bool-cases (has_device m device)) [
        | inl t ↦
            let (d', sends, same) =
              send_keys_total seats d1 device key state (λ q k. slots q (ground arith))
                (λ q k. boards q (ground arith)) in
            (d', rw (send_keys, e) (rw (boards seat self, t) sends), same)
        | inr t ↦
            let (d', sends, same) =
              send_keys_total seats d device key state (λ q k. slots q (ground arith))
                (λ q k. boards q (ground arith)) in
            (d', rw (send_keys, e) (rw t sends), same)
      ]

  focus_pressed-Kept :
      (c : CommonState sm) (ws : Workspace sm) (o : Output) (d : World sm) (seat : Seat)
      (p : PointF sm) (serial : Serial)
      → LayersHavePlaces env
      → active_workspace c.shell.workspaces ≡ ok ws
      → c.shell.outputs ≡ o ∷ []
      → Returns (Kept c d) (focus_pressed env c d seat p serial)
  unfolding focus_pressed
  focus_pressed-Kept c ws o d seat p serial places first outs =
      let (at, act) = active_output_total c.shell d seat o outs in
      let (under, hit) =
        focus_under_total env places p (relative_to env p at) at (geometry env at) ws in
      let (sh', ws', d', focuses, first', outs', same) =
        set_common_focus-SameSlots env c ws d under seat (some serial) first in
      (
        (record c { shell = sh' }, d'),
        rw (focus_pressed, act, first) (rw hit focuses),
        record {
          seats = refl;
          last = refl;
          outputs = outs';
          workspace = (ws', first');
          devices = λ q (m, e). (m, ap (λ s. s.devices) (same q) ∙ e);
        },
      )

  pub press_button-Kept :
      (c : CommonState sm) (ws : Workspace sm) (o : Output) (d : World sm) (seat : Seat)
      (button : ℕ) (pressed : Bool) (p : PointF sm)
      → LayersHavePlaces env
      → active_workspace c.shell.workspaces ≡ ok ws
      → c.shell.outputs ≡ o ∷ []
      → env.pointer seat ≡ some p
      → Returns (Kept c d) (press_button env c d seat button pressed)
  unfolding press_button
  press_button-Kept c ws o d seat button pressed p places first outs points =
      let n = sm.next_serial d.serial in
      let d1 = record d { serial = n } in
      let focuses =
        pressed
        && not (env.pointer_grabbed seat)
        && not (env.has_keyboard seat && env.keyboard_grabbed seat) in
      elim (Bool-cases focuses) [
        | inl t ↦
            let (r, runs, kept) = focus_pressed-Kept c ws o d1 seat p n places first outs in
            (
              (r.0, emit r.1 (pointer_button button pressed n)),
              rw (press_button, points) (rw t (rw runs refl)),
              record {
                seats = kept.seats;
                last = kept.last;
                outputs = kept.outputs;
                workspace = kept.workspace;
                devices = kept.devices;
              },
            )
        | inr t ↦ (
          (c, emit d1 (pointer_button button pressed n)),
          rw (press_button, points) (rw t refl),
          Kept-SameDevices c d (emit d1 (pointer_button button pressed n)) (ws, first) (λ q. refl),
        )
      ]
