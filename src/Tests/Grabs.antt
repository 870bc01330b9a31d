-- ===== src/Tests/Grabs.antt =====
-- src/shell/grab.rs at concrete states.
use electrum.Prelude.{
  ◌==◌, if◌then◌else◌, any, find, ok, ℕ, ◌≡◌, refl, true, false, none, some, [], ◌∷◌,
}
use electrum.Prelude.Int.{pos, ◌+ℤ◌, ◌-ℤ◌}
use electrum.Smithay.{has}
use electrum.World.{MoveGrabState, PointF, World}
use electrum.Workspace.{Workspace}
use electrum.Layout.Placing.{whole_size}
use electrum.Shell.{Shell}
use electrum.Focus.{get_active_focus}
use electrum.Shell.Grab.Release.{move_all, dispatch_idle-move_button}
use electrum.Shell.Grab.{move_request, landing, drop_move, move_button, dispatch_idle}
use electrum.Shell.Grab.Carry.{IsHeld, drop_move-move_request}
use electrum.Tests.Desktop.{desktop, origin, no_data, quiet, env, workspace}

abbrev desk : Shell desktop
desk = record {
  workspaces = workspace ∷ [];
  outputs = 0 ∷ [];
  pending_windows = [];
  pending_layers = [];
}

abbrev pointed : PointF desktop
pointed = record { fx = pos 5; fy = pos 6 }

abbrev empty_handed : World desktop
empty_handed = record quiet {
  seat_data = λ _. record no_data { active_output = some 0; move_grab = some none };
}

abbrev carried : MoveGrabState (PointF desktop)
carried = record { window = 3; initial_cursor_location = pointed; initial_window_location = origin }

abbrev carrying : World desktop
carrying = record quiet {
  seat_data = λ _. record no_data { active_output = some 0; move_grab = some (some carried) };
}

window-IsHeld : IsHeld env desk workspace [] empty_handed 7 3 pointed origin
unfolding any find
window-IsHeld = record {
  first = refl;
  shown = (3, refl);
  windowed = refl;
  points = refl;
  over = (0, refl);
  located = refl;
  floats = refl;
  asked = refl;
  slot = (none, refl);
}

drop_move-move_request_example :
    (ws1 : Workspace desktop) × (d1 : World desktop) × (ws2 : Workspace desktop) × (d2 : World
      desktop)
    × (move_request env desk empty_handed 3 7 4 ≡ ok (record desk { workspaces = ws1 ∷ [] }, d1))
    × (drop_move env (record desk { workspaces = ws1 ∷ [] }) d1 7
        ≡ ok (record desk { workspaces = ws2 ∷ [] }, d2))
    × ((v : ℕ) → desktop.window_location ws2.space v ≡ desktop.window_location workspace.space v)
    × (has ws2.layer.windows 3 ≡ true)
    × (get_active_focus d2 7 ≡ some 3)
    × ((d2.seat_data 7).move_grab ≡ some none)
unfolding ◌+ℤ◌ ◌-ℤ◌
drop_move-move_request_example =
    drop_move-move_request env desk workspace [] empty_handed 7 3 pointed origin 4 0
      (whole_size 0 0) (whole_size 0 0) window-IsHeld refl refl refl refl refl

-- The pointer moves twice while it carries window 3, and the button is released.
abbrev far : PointF desktop
far = record { fx = pos 105; fy = pos 46 }

dispatch_idle-move_button_example :
    (d1 d2 d3 : World desktop) × (ws' : Workspace desktop) × (move_all env desk carrying 3 7
        ((pointed, 1) ∷ (far, 2) ∷ [])
      ≡ ok d1)
    × (move_button env desk d1 7 272 false 3 [] ≡ ok d2)
    × (dispatch_idle (record env { pointer = λ s. some far }) desk d2
        ≡ ok (record desk { workspaces = ws' ∷ [] }, d3))
    × ((v : ℕ)
        → desktop.window_location ws'.space v ≡ (
            if 3 == v
            then some (landing (record env { pointer = λ s. some far }) carried far)
            else desktop.window_location workspace.space v))
    × (has ws'.layer.windows 3 ≡ true)
    × (get_active_focus d3 7 ≡ some 3)
    × ((d3.seat_data 7).move_grab ≡ some none)
dispatch_idle-move_button_example =
    dispatch_idle-move_button env (record env { pointer = λ s. some far }) desk workspace []
      carrying 7 carried far 0 (whole_size 0 0) (whole_size 0 0) ((pointed, 1) ∷ (far, 2) ∷ []) 272
      3 refl refl refl refl refl refl refl refl refl
