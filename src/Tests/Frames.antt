-- ===== src/Tests/Frames.antt =====
-- src/backend/: frames at concrete states.
use electrum.Prelude.{◌==◌, ok, ◌≡◌, refl, Bool, true, false, none, some, List, [], ◌∷◌}
use electrum.Backend.{FrameState, Buffer, render_all}
use electrum.Backend.Frames.{ages_from, pending_resets, render_all-ages}
use electrum.Prelude.Int.{pos}
use electrum.Smithay.Geometry.{Rectangle}
use electrum.World.{Env}
use electrum.Backend.Render.{DrawCall, draw_layer_surface, Renderer, render_window}
use electrum.Backend.Render.Order.{until_failure, frame_calls, render_window-until_failure}
use electrum.Tests.Desktop.{desktop, origin, env}

abbrev frame : Buffer
frame = record { binds = true; submits = true; buffer_age = some 2 }

abbrev lost_frame : Buffer
lost_frame = record { binds = false; submits = true; buffer_age = none }

-- The output showed the desktop, from buffers that were up to date.
abbrev was_desktop : FrameState
was_desktop = record { age_reset = 0; did_custom_rendering = some false }

abbrev frames : List Buffer
frames = frame ∷ lost_frame ∷ frame ∷ frame ∷ frame ∷ []

three_resets : ages_from 3 frames ≡ 0 ∷ 0 ∷ 0 ∷ 2 ∷ []
three_resets = refl

render_all-ages_example :
    (s' : FrameState) × (render_all desktop was_desktop true frames
      ≡ ok (ages_from (pending_resets desktop was_desktop true) frames, s'))
render_all-ages_example = render_all-ages desktop was_desktop true frames

-- A renderer whose layer surface 20 cannot be drawn, on an output that shows two of them in front.
abbrev fails_on_20 : DrawCall desktop → Bool
fails_on_20 (draw_layer_surface l at) = l == 20
fails_on_20 _ = false

abbrev failing : Renderer desktop
failing = record {
  call_fails = fails_on_20;
  finishes = true;
  layers_on = λ o layer. 19 ∷ 20 ∷ [];
  to_physical = λ p s. record { fx = p.x; fy = p.y };
  window_damage = λ w s. [];
  damage_from_surface_tree = λ l at s. [];
  element_location = λ e s. record { fx = pos 0; fy = pos 0 };
  element_geometry = λ e s. record { loc = origin; size = record { w = pos 1; h = pos 1 } };
  element_damage = λ e s. [];
  render_space = λ o age es. none;
}

abbrev bar : Rectangle
bar = record { loc = origin; size = record { w = pos 800; h = pos 20 } }

abbrev with_bars : Env desktop
with_bars = record env { layer_geometry = λ o l. some bar }

render_window-until_failure_example :
    render_window with_bars failing 0 3 true
    ≡ ok (
      (until_failure with_bars failing
          (frame_calls with_bars failing 0 (λ l. bar) (record { w = pos 800; h = pos 600 }) 3)).0,
      none,
    )
unfolding until_failure
render_window-until_failure_example =
    render_window-until_failure with_bars failing 0 (λ l. bar) (record { w = pos 800; h = pos 600 })
      3 refl (refl, (refl, tt))
