-- ===== src/Tests/Layouts.antt =====
-- src/shell/layout/: floating windows at concrete states.
use electrum.Prelude.{ok, ℕ, ◌≡◌, refl, inl, false, none, some, [], ◌∷◌, arith}
use electrum.Prelude.Int.{pos, ◌*ℤ◌}
use electrum.Smithay.{has}
use electrum.World.{ResizeData, World}
use electrum.Layout.{Layout, fit_axis, place_window, map_floating, unmap_floating}
use electrum.Layout.Placing.{whole_size, Limits, Placed, place_window-Placed}
use electrum.Layout.Remembering.{map_floating-unmap_floating, place_window-forgets}
use electrum.Layout.Grab.{ResizeSurfaceGrab}
use electrum.Tests.Desktop.{ListSpace, desktop, origin, no_data, quiet, env, two_windows}

abbrev seated : World desktop
seated = record quiet { seat_data = λ _. record no_data { active_output = some 0 } }

abbrev floats_3 : Layout
floats_3 = record { pending_windows = []; windows = 3 ∷ [] }

-- The zone of every output, and a client without limits.
abbrev limits : Limits
limits = record { zone_w = 900; zone_h = 600; min_w = 0; min_h = 0; max_w = 0; max_h = 0 }

place_window-Placed_example : Placed env floats_3 two_windows quiet 3 none 0 limits
place_window-Placed_example =
    place_window-Placed env floats_3 two_windows quiet 3 none 0 limits
      ((omega arith, inl refl), (omega arith, inl refl)) refl refl

map_floating-unmap_floating_example :
    (l' : Layout) × (s' : ListSpace) × (d' : World desktop) × (s'' : ListSpace) × (d'' : World
      desktop)
    × (unmap_floating env floats_3 two_windows seated 3 ≡ ok (l', s', d'))
    × (has l'.windows 3 ≡ false)
    × (has l'.pending_windows 3 ≡ false)
    × (desktop.window_location s' 3 ≡ none)
    × (map_floating env l' s' d' 3 7 none ≡ ok (record l' { windows = 3 ∷ l'.windows }, s'', d''))
    × ((v : ℕ) → desktop.window_location s'' v ≡ desktop.window_location two_windows v)
map_floating-unmap_floating_example =
    map_floating-unmap_floating env floats_3 two_windows seated 3 origin 7 0 (whole_size 0 0)
      (whole_size 0 0) refl refl refl refl

abbrev shrunk : World desktop
shrunk = record quiet {
  last_geometry = λ _. some (record { loc = origin; size = whole_size 500 200 });
}

place_window-forgets_example :
    (l' : Layout) × (s' : ListSpace) × (d' : World desktop) × (place_window env floats_3 two_windows
        shrunk 3 0 none
      ≡ ok (l', s', d'))
    × ((d'.pending 3).size ≡ (shrunk.pending 3).size)
unfolding fit_axis ◌*ℤ◌
place_window-forgets_example =
    place_window-forgets env floats_3 two_windows shrunk 3 none 0 (whole_size 0 0) (whole_size 0 0)
      (record { loc = origin; size = whole_size 500 200 }) refl refl refl refl refl

abbrev corner : ResizeSurfaceGrab desktop
corner = record {
  start_location = record { fx = pos 5; fy = pos 6 };
  window = 3;
  edges = 10;
  initial_window_size = whole_size 640 300;
  last_window_size = whole_size 640 300;
}

abbrev corner_data : ResizeData
corner_data = record {
  edges = 10;
  initial_window_location = origin;
  initial_window_size = whole_size 640 300;
}
