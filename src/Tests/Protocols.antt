-- ===== src/Tests/Protocols.antt =====
-- src/state/: requests and commits at concrete states.
use electrum.Prelude.{
  ◌==◌, if◌then◌else◌, any, find, ok, panic, ℕ, ◌≡◌, refl, inl, false, none, some, [], ◌∷◌,
}
use electrum.Prelude.Int.{pos}
use electrum.World.{send_configure, load_buffer, World, Env}
use electrum.Workspace.{Workspace}
use electrum.Focus.{get_active_focus}
use electrum.Shell.{Shell, space_for_window}
use electrum.State.Output.{active_output}
use electrum.Shell.Mapping.{take_first}
use electrum.Shell.Common.{CommonState}
use electrum.State.Requests.{
  request_move, request_resize, request_maximize, request_unmaximize, request_fullscreen,
  request_unfullscreen,
}
use electrum.State.Requests.Unmapped.{request_move-space_for_window}
use electrum.State.Requests.Moving.{request_move-unauthorised}
use electrum.State.Compositor.{commit}
use electrum.State.Compositor.Commit.{corner, commit-maps, commit-waits}
use electrum.Tests.Desktop.{desktop, no_data, quiet, env, workspace}

-- Window 5 waits to be mapped.
abbrev desk : Shell desktop
desk = record {
  workspaces = workspace ∷ [];
  outputs = 0 ∷ [];
  pending_windows = (5, 7) ∷ [];
  pending_layers = [];
}

abbrev common : CommonState desktop
common = record { shell = desk; seats = 7 ∷ []; last_active_seat = 7 }

abbrev seated : World desktop
seated = record quiet { seat_data = λ _. record no_data { active_output = some 0 } }

-- The initial configure has not been sent.
abbrev unconfigured : Env desktop
unconfigured = record env { initial_configure_sent = λ s. false }

commit-maps_example :
    (ws' : Workspace desktop) × (d' : World desktop) × (commit env desk seated 5
      ≡ ok (record desk { workspaces = ws' ∷ []; pending_windows = [] }, d'))
    × ((v : ℕ)
        → desktop.window_location ws'.space v
          ≡ (if 5 == v then some corner else desktop.window_location workspace.space v))
    × (get_active_focus d' 7 ≡ some 5)
unfolding find take_first
commit-maps_example =
    commit-maps env desk workspace [] seated 5 5 7 [] 0 refl refl refl refl refl refl refl refl refl

commit-waits_example :
    (d' : World desktop) × (commit unconfigured desk seated 5 ≡ ok (desk, d'))
    × (d'.seat_data ≡ seated.seat_data)
    × (d'.effects
        ≡ send_configure 5 (record (seated.pending 5) { size = none }) ∷ load_buffer 5 ∷ [])
unfolding find
commit-waits_example = commit-waits unconfigured desk seated 5 5 7 refl refl

-- Nothing was pressed: there is no grab that started.
abbrev unpressed : Env desktop
unpressed = record env { grab_start_data = λ s. none; has_grab = λ s n. false }

request_move-unauthorised_example :
    (request_move unpressed common seated 3 7 9 ≡ ok (common, seated))
    × (request_resize unpressed common seated 3 7 9 10 ≡ ok seated)
request_move-unauthorised_example =
    request_move-unauthorised unpressed common seated 3 7 9 10 (record { fx = pos 5; fy = pos 6 })
      refl (inl refl)

-- Surface 9 is on no workspace; the press of serial 4 went to window 3 of the same client.
request_move-space_for_window_example :
    (request_maximize env common seated 9 ≡ ok seated)
    × (request_unmaximize env common seated 9 ≡ ok (common, seated))
    × (request_fullscreen env common seated 9 none ≡ ok (common, seated))
    × (request_unfullscreen env common seated 9 ≡ ok (common, seated))
    × (request_move env common seated 9 7 4 ≡ panic)
    × (request_resize env common seated 9 7 4 10 ≡ panic)
unfolding space_for_window any active_output
request_move-space_for_window_example =
    request_move-space_for_window env common seated 9 3 7 4 10 1 (record { fx = pos 5; fy = pos 6 })
      0 none refl refl refl refl
