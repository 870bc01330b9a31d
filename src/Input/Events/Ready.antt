-- ===== src/Input/Events/Ready.antt =====
-- src/input/mod.rs: what the handlers of input events rely on, and what they leave as it is.
use electrum.Prelude.{
  ◌==◌, ==-refl, Bool-cases, any, ok, ◌≡◌, refl, ◌∙◌, inl, inr, true, Option, none, some, List, [],
  ◌∷◌, arith,
}
use electrum.Smithay.{Output, Seat, has, Smithay}
use electrum.World.{World}
use electrum.Workspace.{Workspace}
use electrum.Shell.{active_workspace}
use electrum.Shell.Common.{CommonState}
use electrum.Input.Devices.{Device, Devices, has_device}
use electrum.Input.Events.{put_devices, seat_of_device}

module _ {sm : Smithay} where
  -- The user data of a seat has the slot of its devices.
  abbrev pub HasDevices : World sm → Seat → Type 0
  HasDevices d q = (m : Devices) × ((d.seat_data q).devices ≡ some m)

  -- What is left when an event was handled: the seats and the outputs, an active workspace, and the
  -- slots for devices.
  pub record Kept (c : CommonState sm) (d : World sm) (r : CommonState sm × World sm) : Type 0 where
    pub seats : r.0.seats ≡ c.seats
    pub last : r.0.last_active_seat ≡ c.last_active_seat
    pub outputs : r.0.shell.outputs ≡ c.shell.outputs
    pub workspace : (ws : Workspace sm) × (active_workspace r.0.shell.workspaces ≡ ok ws)
    pub devices : (q : Seat) → HasDevices d q → HasDevices r.1 q

  -- Events may come: each seat has its slot for devices, and there are a workspace and an output.
  pub record IsReady (o : Output) (c : CommonState sm) (d : World sm) : Type 0 where
    pub devices : (q : Seat) → has (c.last_active_seat ∷ c.seats) q ≡ true → HasDevices d q
    pub workspace : (ws : Workspace sm) × (active_workspace c.shell.workspaces ≡ ok ws)
    pub outputs : c.shell.outputs ≡ o ∷ []

  pub IsReady-Kept :
      (o : Output) (c : CommonState sm) (d : World sm) (r : CommonState sm × World sm)
      → IsReady o c d
      → Kept c d r
      → IsReady o r.0 r.1
  IsReady-Kept o c d r ready kept = record {
    devices = λ q h. kept.devices q (ready.devices q (rw (kept.last, kept.seats) at h));
    workspace = kept.workspace;
    outputs = kept.outputs ∙ ready.outputs;
  }

  abbrev pub SameDevices : World sm → World sm → Type 0
  SameDevices d d' = (q : Seat) → (d'.seat_data q).devices ≡ (d.seat_data q).devices

  pub Kept-SameDevices :
      (c : CommonState sm) (d d' : World sm)
      → (ws : Workspace sm) × (active_workspace c.shell.workspaces ≡ ok ws)
      → SameDevices d d'
      → Kept c d (c, d')
  Kept-SameDevices c d d' first same = record {
    seats = refl;
    last = refl;
    outputs = refl;
    workspace = first;
    devices = λ q (m, e). (m, same q ∙ e);
  }

  pub Kept-put_devices :
      (c : CommonState sm) (d : World sm) (seat : Seat) (m : Devices)
      → (ws : Workspace sm) × (active_workspace c.shell.workspaces ≡ ok ws)
      → Kept c d (c, put_devices d seat m)
  Kept-put_devices c d seat m first = record {
    seats = refl;
    last = refl;
    outputs = refl;
    workspace = first;
    devices = λ q (m', e). elim (Bool-cases (seat == q)) [
      | inl t ↦ (m, rw t refl)
      | inr t ↦ (m', rw t e)
    ];
  }

  pub seat_is_known :
      (c : CommonState sm) → has (c.last_active_seat ∷ c.seats) c.last_active_seat ≡ true
  unfolding any
  seat_is_known c = rw (==-refl c.last_active_seat) refl

  pub slots_of :
      (o : Output) (c : CommonState sm) (d : World sm)
      → IsReady o c d
      → (q : Seat) → has c.seats q ≡ true
      → HasDevices d q
  unfolding any
  slots_of o c d ready q k = ready.devices q (ground arith)

  -- A loop over seats that have the slot finds out whether one of them has the device.
  pub seat_of_device_total :
      (d : World sm) (seats : List Seat) (device : Device)
      → ((q : Seat) → has seats q ≡ true → HasDevices d q)
      → (found : Option Seat) × (seat_of_device d seats device ≡ ok found)
        × ((q : Seat) → found ≡ some q → has seats q ≡ true)
  unfolding seat_of_device any
  seat_of_device_total d [] device h = (none, refl, λ q e. ground arith)
  seat_of_device_total d (seat ∷ seats) device h =
      let (m, e) = h seat (rw (==-refl seat) refl) in
      let (found, runs, known) =
        seat_of_device_total d seats device (λ q k. h q (ground (arith, k))) in
      elim (Bool-cases (has_device m device)) [
        | inl t ↦ (some seat, rw (seat_of_device, e) (rw (runs, t) refl), λ q k. ground (arith, k))
        | inr t ↦
            (found, rw (seat_of_device, e) (rw (runs, t) refl), λ q k. ground (arith, known q k))
      ]
