-- ===== src/Tests/Focuses.antt =====
-- src/shell/focus.rs and src/shell/mod.rs at concrete states.
use electrum.Prelude.{
  ◌==◌, if◌then◌else◌, any, retain, find, Outcome, ok, panic, Returns, ℕ, ◌≡◌, refl, inl, false,
  ◌&&◌, ◌||◌, Option, none, some, List, [], ◌∷◌,
}
use electrum.Smithay.{has}
use electrum.World.{SeatData, Effect, keyboard_focus, ungrab_popup, World}
use electrum.Workspace.{Workspace}
use electrum.Focus.{
  last, append, focus_stacks, put_stack, focus_stack_mut, set_active_focus, get_active_focus,
  remove_popup_grab,
}
use electrum.Focus.Data.{stack_at, top}
use electrum.Shell.{
  Shell, active_workspace, add_output, remove_output, space_for_window, push_focus, focus_window,
  set_focus,
}
use electrum.Focus.Recent.{front}
use electrum.Shell.SetFocus.Recent.{view, IsTidy}
use electrum.Shell.SetFocus.Refinement.{focus_all, focus_views, focus_all-focus_views}
use electrum.Shell.SetFocus.{set_focus-focuses}
use electrum.Shell.Outputs.{remove_output-keeps_mapped}
use electrum.Shell.Common.{update_active, refresh_seat}
use electrum.Shell.Common.RefreshFocus.{refresh_seat-repairs}
use electrum.Shell.Common.Activation.{told_active, has_focus, update_active-told}
use electrum.Tests.Desktop.{desktop, no_data, quiet, env, workspace}

-- Window 12 has died.
abbrev stack : List ℕ
stack = 3 ∷ 12 ∷ 4 ∷ []

abbrev shell : Shell desktop
shell = record {
  workspaces = workspace ∷ [];
  outputs = 0 ∷ [];
  pending_windows = [];
  pending_layers = [];
}

abbrev with_focus : List ℕ → Option ℕ → ℕ → SeatData desktop
with_focus s surface grab = record no_data {
  focus_stacks = some (record { stacks = λ i. if i == 0 then some s else none; fallback = [] });
  active_focus = some surface;
  popup_grab = some (some grab);
}

-- Seat 1 is focused on window 4, and seat 2 on window 12, which has died.
abbrev two_seats : World desktop
two_seats = record quiet {
  seat_data = λ s.
      if s == 1
      then with_focus stack (some 4) 7
      else if s == 2
      then with_focus (4 ∷ 3 ∷ 12 ∷ []) (some 12) 8
      else no_data;
}

-- What went out, the latest first.
abbrev calls : Outcome (World desktop) → List (Effect desktop)
calls (ok d) = d.effects
calls panic = []

-- The popup grab of seat 1 ends when its focus moves from window 4 to window 3.
focus_three :
    calls (set_focus env shell two_seats (some 3) 1 (some 50))
    ≡ keyboard_focus 1 (some 3) 50 ∷ ungrab_popup 7 ∷ []
unfolding set_focus focus_window push_focus space_for_window focus_stack_mut put_stack
    set_active_focus remove_popup_grab focus_stacks last append find retain any
focus_three = refl

set_focus-focuses_example :
    (d' : World desktop) × (n : ℕ) × (before : List (Effect desktop)) × (set_focus env shell
        two_seats
        (some 3)
        1
        none
      ≡ ok d')
    × (top env d' 1 0 ≡ some 3)
    × (get_active_focus d' 1 ≡ some 3)
    × (d'.effects ≡ keyboard_focus 1 (some 3) n ∷ before)
    × ((q j : ℕ) → (1 == q && 0 == j) ≡ false → stack_at d' q j ≡ stack_at two_seats q j)
unfolding space_for_window any
set_focus-focuses_example =
    set_focus-focuses env shell two_seats 3 1 none workspace 3 refl refl refl refl

refresh_seat-repairs_example :
    (d' : World desktop) × (n : ℕ) × (before : List (Effect desktop)) × (refresh_seat env shell
        two_seats 2
      ≡ ok d')
    × (get_active_focus d' 2 ≡ some 3)
    × (d'.effects ≡ keyboard_focus 2 (some 3) n ∷ before)
    × ((q j : ℕ) → stack_at d' q j ≡ stack_at two_seats q j)
unfolding last find get_active_focus
refresh_seat-repairs_example =
    refresh_seat-repairs env shell workspace refl two_seats 2 12 refl refl (inl refl)

update_active-told_example :
    (sh' : Shell desktop) × (d' : World desktop) × (update_active env shell two_seats (1 ∷ 2 ∷ [])
      ≡ ok (sh', d'))
    × ((w : ℕ)
        → told_active env d'.effects w ≡ (
            if has (4 ∷ 3 ∷ []) w
            then some (has_focus env two_seats 0 (1 ∷ 2 ∷ []) w)
            else told_active env [] w))
update_active-told_example =
    update_active-told env shell workspace 0 [] two_seats (1 ∷ 2 ∷ []) refl refl

remove_output-keeps_mapped_example :
    (sh' sh'' : Shell desktop) × (ws' : Workspace desktop) × (add_output env shell 1 ≡ ok sh')
    × (remove_output env sh' 1 ≡ ok sh'')
    × (sh''.outputs ≡ 0 ∷ [])
    × (has sh''.outputs 1 ≡ false)
    × (active_workspace sh''.workspaces ≡ ok ws')
    × ((q : ℕ) → has ws'.space.outs q ≡ 1 == q || has (0 ∷ []) q)
unfolding retain
remove_output-keeps_mapped_example = remove_output-keeps_mapped env shell 1 workspace refl

-- No seat has focused anything yet.
quiet-IsTidy : IsTidy env quiet
unfolding retain
quiet-IsTidy = record { empty = λ q. refl; distinct = λ q j. tt }

focus_all-focus_views_example :
    Returns
      (λ d'.
        ((q j : ℕ)
          → (view env d' q j
              ≡ focus_views env shell (view env quiet) ((1, 3) ∷ (1, 4) ∷ (2, 3) ∷ []) q j)
            × (top env d' q j
                ≡ front
                    (focus_views env shell (view env quiet) ((1, 3) ∷ (1, 4) ∷ (2, 3) ∷ []) q j)))
        × IsTidy env d')
      (focus_all env shell quiet ((1, 3) ∷ (1, 4) ∷ (2, 3) ∷ []))
focus_all-focus_views_example =
    focus_all-focus_views env shell quiet ((1, 3) ∷ (1, 4) ∷ (2, 3) ∷ []) quiet-IsTidy
