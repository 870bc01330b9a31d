-- ===== src/Tests/Inputs.antt =====
-- src/input/mod.rs: events at concrete states.
use electrum.Prelude.{
  ltb, if◌then◌else◌, any, lookup, ok, ◌≡◌, refl, Bool, true, false, ◌&&◌, none, some, List, [],
  ◌∷◌, arith,
}
use electrum.Prelude.Int.{pos, pos_part, ◌-ℤ◌}
use electrum.Smithay.Geometry.{Rectangle}
use electrum.World.{PointF, Effect, pointer_button, World, Env}
use electrum.World.Layers.{Layer}
use electrum.Workspace.{Workspace, get_fullscreen}
use electrum.Shell.{Shell}
use electrum.Shell.Common.{CommonState}
use electrum.Focus.{get_active_focus}
use electrum.Input.Under.{add_loc, layer_hit, surface_under, focus_under}
use electrum.Input.Under.Owner.{
  owner_at, pointer_enters, keyboard_enters, focus_under-surface_under, focus_under-ignores_top,
}
use electrum.Input.Events.{press_button}
use electrum.Input.Events.Place.{Moves, move_pointer-MovedTo}
use electrum.Input.Events.Target.{LayersAreHit, press_target}
use electrum.Input.Events.Press.{CanPress, press_button-focuses}
use electrum.Tests.Desktop.{desktop, origin, no_data, quiet, env, workspace}

abbrev middle : PointF desktop
middle = record { fx = pos 5; fy = pos 6 }

abbrev elsewhere : PointF desktop
elsewhere = record { fx = pos 805; fy = pos 6 }

abbrev screen : Rectangle
screen = record { loc = origin; size = record { w = pos 800; h = pos 600 } }

-- Window 3 fills the output.
abbrev filled : Workspace desktop
filled = record workspace { fullscreen = ("WINIT-0", 3) ∷ [] }

abbrev desk : Shell desktop
desk = record {
  workspaces = filled ∷ [];
  outputs = 0 ∷ [];
  pending_windows = [];
  pending_layers = [];
}

abbrev common : CommonState desktop
common = record { shell = desk; seats = 7 ∷ []; last_active_seat = 7 }

abbrev seated : World desktop
seated = record quiet { seat_data = λ _. record no_data { active_output = some 0 } }

abbrev is_top : Layer → Bool
is_top Layer.top = true
is_top _ = false

abbrev is_bottom : Layer → Bool
is_bottom Layer.bottom = true
is_bottom _ = false

-- A panel on the top layer.
abbrev panelled : Env desktop
panelled = record env {
  layer_under = λ o layer p. if is_top layer then some 20 else none;
  layer_geometry = λ o l. some screen;
  layer_surface_under = λ l p. some (21, origin);
}

focus_under-surface_under_example :
    (surface_under env middle middle 0 screen workspace
      ≡ pointer_enters env middle middle 0 screen (owner_at env 0 workspace middle))
    × (focus_under env middle middle 0 screen workspace
        ≡ keyboard_enters env middle 0 screen (owner_at env 0 workspace middle))
unfolding get_fullscreen lookup any
focus_under-surface_under_example =
    focus_under-surface_under env middle middle 0 screen workspace refl refl

focus_under-ignores_top_example :
    (surface_under panelled middle middle 0 screen filled
      ≡ ok (some (21, add_loc (add_loc origin origin) origin)))
    × (focus_under panelled middle middle 0 screen filled ≡ ok (some 3))
unfolding get_fullscreen lookup any layer_hit
focus_under-ignores_top_example =
    focus_under-ignores_top panelled middle middle 0 screen filled 3 20 screen 21 3 origin origin
      refl refl refl refl refl

-- No window fills an output.
abbrev windowed_desk : Shell desktop
windowed_desk = record desk { workspaces = workspace ∷ [] }

no_layers : LayersAreHit env
no_layers = record { hits = λ o layer p l e. ground arith }

move_pointer-MovedTo_example : Moves env windowed_desk workspace seated 7 middle middle 0
unfolding get_fullscreen lookup
move_pointer-MovedTo_example =
    move_pointer-MovedTo env windowed_desk workspace seated 7 middle middle 0 refl refl refl
      (λ o. ground arith) no_layers

abbrev windowed : CommonState desktop
windowed = record common { shell = windowed_desk }

seated-CanPress : CanPress env seated 7 middle 0
seated-CanPress = record {
  points = refl;
  has_keyboard = refl;
  pointer_free = refl;
  keyboard_free = refl;
  active = refl;
}

press_button-focuses_example :
    (c' : CommonState desktop) × (d' : World desktop) × (before : List (Effect desktop))
    × (press_button env windowed seated 7 272 true ≡ ok (c', d'))
    × (get_active_focus d' 7 ≡ press_target env (owner_at env 0 workspace middle))
    × (d'.effects ≡ pointer_button 272 true 1 ∷ before)
unfolding get_fullscreen lookup any ◌-ℤ◌
press_button-focuses_example =
    press_button-focuses env windowed workspace seated 7 272 middle 0 seated-CanPress refl refl refl
      no_layers

-- A picture on the bottom layer, in the left part of an output that lies to the right of another.
abbrev pictured : Env desktop
pictured = record env {
  pointer = λ s. some elsewhere;
  current_location = λ o. record { x = pos 800; y = pos 0 };
  layer_under = λ o layer p. if is_bottom layer && ltb (pos_part p.fx) 800 then some 20 else none;
  layer_geometry = λ o l. some screen;
  can_receive_keyboard_focus = λ l. true;
  layer_surface_under = λ l p. some (21, origin);
}
