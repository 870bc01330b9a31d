-- ===== src/State/Requests/Unmapped.antt =====
-- src/state/xdg_shell.rs: requests for surfaces that no workspace shows.
use electrum.Prelude.{
  if◌then◌else◌, Bool-cases, Outcome, ok, panic, ℕ, ◌≡◌, refl, inl, inr, Bool, ◌&&◌, Option, none,
  some,
}
use electrum.Smithay.{Window, WlSurface, Output, Seat, Serial, Smithay}
use electrum.World.{PointF, World, Env}
use electrum.Workspace.{Workspace, fullscreen_request, unfullscreen_request, unmaximize_request}
use electrum.State.Output.{active_output}
use electrum.Shell.{space_for_window}
use electrum.Shell.Common.{CommonState}
use electrum.State.Requests.{
  check_grab_preconditions, request_move, request_resize, request_maximize, on_workspace,
  request_unmaximize, output_or_active, request_fullscreen, request_unfullscreen,
}

module _ {sm : Smithay} (env : Env sm) where
  -- The press that the serial names still grabs the pointer, and went to the client of the surface.
  abbrev pub is_authorised : Seat → WlSurface → Serial → WlSurface → Bool
  is_authorised seat surface serial f = env.has_grab seat serial && env.same_client_as f surface

  check_grab_preconditions-is_authorised :
      (seat : Seat) (surface f : WlSurface) (serial : Serial) (p : PointF sm) (grab : ℕ)
      → env.pointer seat ≡ some p
      → env.grab_start_data seat ≡ some (grab, some f)
      → check_grab_preconditions env seat surface serial
        ≡ ok (if is_authorised seat surface serial f then some grab else none)
  unfolding check_grab_preconditions
  check_grab_preconditions-is_authorised seat surface f serial p grab points start =
      elim (Bool-cases (env.has_grab seat serial)) [
        | inl e ↦ rw (check_grab_preconditions, points) (rw (e, start) refl)
        | inr e ↦ rw (check_grab_preconditions, points) (rw e refl)
      ]

  on_workspace-space_for_window :
      (c : CommonState sm) (d : World sm) (surface : WlSurface)
      (act : Workspace sm → Window → Outcome (Workspace sm × World sm))
      → space_for_window env c.shell.workspaces surface ≡ none
      → on_workspace env c d surface act ≡ ok (c, d)
  on_workspace-space_for_window c d surface act nowhere = rw (on_workspace, nowhere) refl

  -- For a surface that no workspace shows, the requests to maximize it, to make it fullscreen and to
  -- leave either change nothing and send nothing, while an authorised request to move or to resize
  -- it panics; an unauthorised one changes nothing.
  pub request_move-space_for_window :
      (c : CommonState sm) (d : World sm) (surface f : WlSurface) (seat : Seat) (serial : Serial)
      (edges grab : ℕ) (p : PointF sm) (o : Output) (named : Option Output)
      → space_for_window env c.shell.workspaces surface ≡ none
      → active_output env c.shell d c.last_active_seat ≡ ok o
      → env.pointer seat ≡ some p
      → env.grab_start_data seat ≡ some (grab, some f)
      → (request_maximize env c d surface ≡ ok d)
        × (request_unmaximize env c d surface ≡ ok (c, d))
        × (request_fullscreen env c d surface named ≡ ok (c, d))
        × (request_unfullscreen env c d surface ≡ ok (c, d))
        × (request_move env c d surface seat serial
            ≡ (if is_authorised seat surface serial f then panic else ok (c, d)))
        × (request_resize env c d surface seat serial edges
            ≡ (if is_authorised seat surface serial f then panic else ok d))
  unfolding request_move request_resize request_maximize request_unmaximize output_or_active
      request_fullscreen request_unfullscreen
  request_move-space_for_window c d surface f seat serial edges grab p o named nowhere active points
        start =
      let checked =
        check_grab_preconditions-is_authorised seat surface f serial p grab points start in
      let full : request_fullscreen env c d surface named ≡ ok (c, d) =
        elim named as (λ q. request_fullscreen env c d surface q ≡ ok (c, d)) [
          | none ↦
              rw (request_fullscreen, output_or_active, active)
                (on_workspace-space_for_window c d surface
                  (λ ws w. ok (fullscreen_request env ws d w o)) nowhere)
          | some q ↦
              on_workspace-space_for_window c d surface
                (λ ws w. ok (fullscreen_request env ws d w q)) nowhere
        ] in
      (
        rw (request_maximize, active) (rw nowhere refl),
        on_workspace-space_for_window c d surface (λ ws w. unmaximize_request env ws d w) nowhere,
        full,
        on_workspace-space_for_window c d surface (λ ws w. unfullscreen_request env ws d w) nowhere,
        elim (Bool-cases (is_authorised seat surface serial f)) [
          | inl e ↦ rw checked (rw e (rw nowhere refl))
          | inr e ↦ rw checked (rw e refl)
        ],
        elim (Bool-cases (is_authorised seat surface serial f)) [
          | inl e ↦ rw checked (rw e (rw nowhere refl))
          | inr e ↦ rw checked (rw e refl)
        ],
      )
