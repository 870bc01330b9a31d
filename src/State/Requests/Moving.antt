-- ===== src/State/Requests/Moving.antt =====
-- src/state/xdg_shell.rs: who may move and resize windows with the pointer.
use electrum.Prelude.{Bool-cases, ok, ℕ, ◌≡◌, refl, ◌⊎◌, inl, inr, true, false, Option, none, some}
use electrum.Smithay.{WlSurface, Seat, Serial, Smithay}
use electrum.World.{PointF, World, Env}
use electrum.Shell.Common.{CommonState}
use electrum.State.Requests.{check_grab_preconditions, request_move, request_resize}

module _ {sm : Smithay} (env : Env sm) where
  -- The serial is not that of a press that grabs the pointer; or that press went to no surface, or to
  -- one of another client.
  abbrev pub IsUnauthorised : Seat → WlSurface → Serial → Type 0
  IsUnauthorised seat surface serial =
      (env.has_grab seat serial ≡ false)
      ⊎ ((grab : ℕ) × (focus : Option WlSurface) × (env.grab_start_data seat ≡ some (grab, focus))
          × ((f : WlSurface) → focus ≡ some f → env.same_client_as f surface ≡ false))

  check_grab_preconditions-IsUnauthorised :
      (seat : Seat) (surface : WlSurface) (serial : Serial) (p : PointF sm)
      → env.pointer seat ≡ some p
      → IsUnauthorised seat surface serial
      → check_grab_preconditions env seat surface serial ≡ ok none
  unfolding check_grab_preconditions
  check_grab_preconditions-IsUnauthorised seat surface serial p points (inl e) =
      rw (check_grab_preconditions, points) (rw e refl)
  check_grab_preconditions-IsUnauthorised seat surface serial p points
        (inr (grab, focus, start, other)) =
      elim (Bool-cases (env.has_grab seat serial)) [
        | inr e ↦ rw (check_grab_preconditions, points) (rw e refl)
        | inl e ↦ served focus start other e
      ]
    where
      served :
          (focus : Option WlSurface)
          → env.grab_start_data seat ≡ some (grab, focus)
          → ((f : WlSurface) → focus ≡ some f → env.same_client_as f surface ≡ false)
          → env.has_grab seat serial ≡ true
          → check_grab_preconditions env seat surface serial ≡ ok none
      served none start other e = rw (check_grab_preconditions, points) (rw (e, start) refl)
      served (some f) start other e =
          rw (check_grab_preconditions, points) (rw (e, start) (rw (other f refl) refl))

  -- On a seat with a pointer, a request to move or to resize a window changes nothing and sends
  -- nothing when the serial is not that of a press that grabs the pointer, whether or not something
  -- grabs it, or when that press went to no surface or to a surface of another client.
  pub request_move-unauthorised :
      (c : CommonState sm) (d : World sm) (surface : WlSurface) (seat : Seat) (serial : Serial)
      (edges : ℕ) (p : PointF sm)
      → env.pointer seat ≡ some p
      → IsUnauthorised seat surface serial
      → (request_move env c d surface seat serial ≡ ok (c, d))
        × (request_resize env c d surface seat serial edges ≡ ok d)
  unfolding request_move request_resize
  request_move-unauthorised c d surface seat serial edges p points refused =
      let no = check_grab_preconditions-IsUnauthorised seat surface serial p points refused in
      (rw no refl, rw no refl)
