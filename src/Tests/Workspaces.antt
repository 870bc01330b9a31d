-- ===== src/Tests/Workspaces.antt =====
-- src/shell/workspace.rs at concrete states.
use electrum.Smithay.{fullscreen, has}
use electrum.Prelude.{
  if◌then◌else◌, any, retain, lookup, ok, ℕ, ◌≡◌, refl, ◌≢◌, ◌⊎◌, true, false, ◌&&◌, none, some, [],
  ◌∷◌, str_eq,
}
use electrum.World.{World, send_message}
use electrum.Workspace.{
  Workspace, is_fullscreen, output_size, fullscreen_request, unfullscreen_request, unfullscreen_all,
  is_connected, dead_windows, refresh, get_fullscreen, fullscreens, step,
}
use electrum.Workspace.Fullscreen.{
  left, fullscreen_request-unfullscreen_request, get_fullscreen-fullscreen_request,
}
use electrum.Workspace.Refresh.{refresh-keep}
use electrum.Workspace.Coherence.{IsCoherent, step-IsCoherent}
use electrum.Tests.Desktop.{desktop, quiet, env, workspace}

-- Window 3 is fullscreen on the output, and window 4 on an output that is gone.
abbrev busy : Workspace desktop
busy = record workspace { fullscreen = ("WINIT-0", 3) ∷ ("HDMI-1", 4) ∷ [] }

fullscreen_request-unfullscreen_request_example :
    let (ws', d') = fullscreen_request env workspace quiet 3 0 in
    (is_fullscreen ws'.fullscreen 3 ≡ true)
    × (desktop.contains_state (d'.pending 3).states fullscreen ≡ true)
    × ((d'.pending 3).size ≡ some (output_size env 0))
    × (unfullscreen_request env ws' d' 3 ≡ ok (workspace, left env d' 3))
    × (desktop.contains_state ((left env d' 3).pending 3).states fullscreen ≡ false)
    × (((left env d' 3).pending 3).size ≡ none)
    × ((v : ℕ) → v ≢ 3 → (left env d' 3).pending v ≡ quiet.pending v)
unfolding lookup any
fullscreen_request-unfullscreen_request_example =
    fullscreen_request-unfullscreen_request env workspace quiet 3 0 refl refl refl

get_fullscreen-fullscreen_request_example :
    let (ws', d') = fullscreen_request env workspace quiet 3 0 in
    ((lookup (env.output_name 0) workspace.fullscreen ≡ none)
      × (get_fullscreen env ws' 0 ≡ (
          if str_eq (env.output_name 0) (env.output_name 0)
          then (if has (desktop.space_outputs workspace.space) 0 && env.alive 3
              then some 3
              else none)
          else get_fullscreen env workspace 0)))
    ⊎ ((v : ℕ) × (lookup (env.output_name 0) workspace.fullscreen ≡ some v)
        × (ws' ≡ workspace)
        × (d' ≡ quiet))
get_fullscreen-fullscreen_request_example =
    get_fullscreen-fullscreen_request env workspace quiet 3 0 0

-- The window whose output is gone leaves fullscreen.
lost_output_leaves :
    (d' : World desktop) × (refresh env busy quiet
      ≡ ok (record busy { fullscreen = ("WINIT-0", 3) ∷ [] }, d'))
unfolding refresh retain any is_connected dead_windows unfullscreen_all unfullscreen_request
    send_message
lost_output_leaves = (left env quiet 4, refl)

refresh-keep_example :
    (d' : World desktop) × (refresh env busy quiet
      ≡ ok (
        record busy { space = desktop.refresh_space busy.space; fullscreen = ("WINIT-0", 3) ∷ [] },
        d',
      ))
unfolding retain any
refresh-keep_example = refresh-keep env busy quiet refl

workspace-IsCoherent : IsCoherent env workspace quiet
unfolding any
workspace-IsCoherent = record { shown = λ w h. h; hidden = λ w a h. h }

step-IsCoherent_example :
    (ws' : Workspace desktop) × (d' : World desktop) × (step env workspace quiet (fullscreens 3 0)
      ≡ ok (ws', d'))
    × IsCoherent env ws' d'
step-IsCoherent_example =
    step-IsCoherent env refl workspace quiet (fullscreens 3 0) workspace-IsCoherent
