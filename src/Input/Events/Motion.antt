-- ===== src/Input/Events/Motion.antt =====
-- src/input/mod.rs: where the pointer and the active output are after a motion.
use electrum.Prelude.{
  ◌==◌, ==-refl, Option-cases, ok, ◌≡◌, refl, ◌∙◌, inl, inr, false, Option, some, ◌∷◌,
}
use electrum.Smithay.{WlSurface, Output, Seat, Smithay}
use electrum.Smithay.Geometry.{Point}
use electrum.World.{PointF, pointer_motion, World, Env, update-same, emit, set_seat}
use electrum.Workspace.{Workspace}
use electrum.State.Output.{geometry, set_active_output}
use electrum.Shell.{Shell, active_workspace}
use electrum.Input.Under.{surface_under}
use electrum.Input.Events.{relative_to, send_motion}

module _ {sm : Smithay} (env : Env sm) where
  -- What setting the active output leaves.
  pub record MovedTo (d d' : World sm) (seat : Seat) (o : Output) : Type 0 where
    pub active : (d'.seat_data seat).active_output ≡ some o
    pub others : (q : Seat) → (seat == q) ≡ false → d'.seat_data q ≡ d.seat_data q
    pub devices : (q : Seat) → (d'.seat_data q).devices ≡ (d.seat_data q).devices
    pub effects : d'.effects ≡ d.effects
    pub serial : d'.serial ≡ d.serial

  pub set_active_output-MovedTo :
      (d : World sm) (seat : Seat) (o : Output)
      → (d' : World sm) × (set_active_output env d seat o ≡ ok d') × MovedTo d d' seat o
  unfolding set_active_output
  set_active_output-MovedTo d seat o = elim (Option-cases (d.seat_data seat).active_output) [
    | inl e ↦ (
      set_seat d seat (record (d.seat_data seat) { active_output = some o }),
      rw (set_active_output, e) (rw (sm.insert_missing o) refl),
      record {
        active = rw (==-refl seat) refl;
        others = λ q ne. rw ne refl;
        devices = λ q.
            update-same (λ s. s.devices) d.seat_data seat
              (record (d.seat_data seat) { active_output = some o }) q refl;
        effects = refl;
        serial = refl;
      },
    )
    | inr (old, e) ↦
        let d1 = set_seat d seat (record (d.seat_data seat) { active_output = some old }) in
        (
          set_seat d1 seat (record (d1.seat_data seat) { active_output = some o }),
          rw (set_active_output, e) (rw (sm.insert_present old o) refl),
          record {
            active = rw (==-refl seat) refl;
            others = λ q ne. rw ne refl;
            devices = λ q.
                update-same (λ s. s.devices) d1.seat_data seat
                  (record (d1.seat_data seat) { active_output = some o }) q refl
                ∙ update-same (λ s. s.devices) d.seat_data seat
                    (record (d.seat_data seat) { active_output = some old }) q refl;
            effects = refl;
            serial = refl;
          },
        )
  ]

  pub send_motion_lem :
      (sh : Shell sm) (ws : Workspace sm) (d : World sm) (p : PointF sm) (o : Output)
      (under : Option (WlSurface × Point))
      → active_workspace sh.workspaces ≡ ok ws
      → surface_under env p (relative_to env p o) o (geometry env o) ws ≡ ok under
      → (d' : World sm) × (send_motion env sh d p o ≡ ok d')
        × (d'.effects ≡ pointer_motion p under (sm.next_serial d.serial) ∷ d.effects)
        × (d'.seat_data ≡ d.seat_data)
  unfolding send_motion
  send_motion_lem sh ws d p o under first hit =
      let n = sm.next_serial d.serial in
      (
        emit (record d { serial = n }) (pointer_motion p under n),
        rw (send_motion, first, hit) refl,
        refl,
        refl,
      )
