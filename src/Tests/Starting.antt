-- ===== src/Tests/Starting.antt =====
-- src/state/mod.rs, src/input/mod.rs and src/backend/: the start, and a row of events.
use electrum.Prelude.{
  any, All, ok, Returns, ◌≡◌, refl, true, false, none, some, List, [], ◌∷◌, arith,
}
use electrum.Prelude.Int.{pos}
use electrum.Smithay.Geometry.{Size, Rectangle}
use electrum.Backend.Render.{Renderer}
use electrum.Backend.Winit.Iteration.{FrameFinds}
use electrum.World.{World, Env}
use electrum.State.Clients.{
  ClientRequest, creates_window, creates_layer, commits_surface, creates_popup, repositions_popup,
  creates_layer_popup, grabs_popup,
}
use electrum.State.Clients.Serving.{Serves}
use electrum.Shell.Common.{CommonState}
use electrum.State.Start.{new_state}
use electrum.Input.Devices.{Device}
use electrum.Input.Events.{device_added, motion_event, button_event, process_input_event}
use electrum.Input.Events.Ready.{IsReady}
use electrum.Input.Events.Safety.{process_input_event-IsReady}
use electrum.Backend.{FrameState, Buffer}
use electrum.Backend.Winit.{
  winit, WinitEvent, resized, focus_changed, input, refresh_window, Attempt, init_backend,
}
use electrum.Backend.Winit.Loop.{Batch, run_loop, GoesWell, run_loop-init_backend}
use electrum.Backend.Winit.Safety.{Around, AllAround}
use electrum.Tests.Desktop.{ListSpace, desktop, no_data, quiet, env, workspace}

abbrev mouse : Device
mouse = record { id = "winit"; has_capability = λ c. true }

abbrev window_size : Size
window_size = record { w = pos 800; h = pos 600 }

abbrev nothing : ListSpace
nothing = record { locations = λ w. none; shown = []; outs = [] }

-- A device comes, the pointer moves, the window is resized and focused, a button is pressed.
abbrev events : List (Env desktop × WinitEvent desktop)
events =
    (env, input (device_added mouse))
    ∷ (env, input (motion_event mouse (record { fx = pos 3; fy = pos 4 })))
    ∷ (env, resized window_size)
    ∷ (env, focus_changed true)
    ∷ (env, input (button_event mouse 272 true))
    ∷ (env, refresh_window)
    ∷ []

around : Around 0 (7 ∷ []) env
around = record {
  input = record {
    pointers = λ q k. (record { fx = pos 5; fy = pos 6 }, refl);
    keyboards = λ q k. refl;
    places = record { has_place = λ o layer p l e. ground arith };
  };
  mode = (window_size, refl);
}

all_around : AllAround 0 (7 ∷ []) events
all_around = (around, (around, (around, (around, (around, (around, tt))))))

abbrev ready_state : CommonState desktop
ready_state = record {
  shell = record {
    workspaces = workspace ∷ [];
    outputs = 0 ∷ [];
    pending_windows = [];
    pending_layers = [];
  };
  seats = 7 ∷ [];
  last_active_seat = 7;
}

abbrev ready_world : World desktop
ready_world = record quiet { seat_data = λ _. record no_data { devices = some [] } }

is_ready : IsReady 0 ready_state ready_world
is_ready = record { devices = λ q k. ([], refl); workspace = (workspace, refl); outputs = refl }

process_input_event-IsReady_example :
    Returns
      (λ r. (r.0.seats ≡ 7 ∷ []) × IsReady 0 r.0 r.1)
      (process_input_event env ready_state ready_world (button_event mouse 272 true))
process_input_event-IsReady_example =
    process_input_event-IsReady env 0 ready_state ready_world (button_event mouse 272 true)
      around.input is_ready

abbrev drawn_frame : Buffer
drawn_frame = record { binds = true; submits = true; buffer_age = some 2 }

abbrev nowhere : Rectangle
nowhere = record { loc = record { x = pos 0; y = pos 0 }; size = window_size }

abbrev lost_frame : Buffer
lost_frame = record { binds = false; submits = true; buffer_age = none }

-- Nothing fails.
abbrev renderer : Renderer desktop
renderer = record {
  call_fails = λ c. false;
  finishes = true;
  layers_on = λ o layer. [];
  to_physical = λ p s. record { fx = p.x; fy = p.y };
  window_damage = λ w s. [];
  damage_from_surface_tree = λ surface p s. [];
  element_location = λ e s. record { fx = pos 0; fy = pos 0 };
  element_geometry = λ e s. nowhere;
  element_damage = λ e s. [];
  render_space = λ o age es. some [];
}

abbrev attempt : Buffer → Attempt desktop
attempt b = record { buffer = b; renderer = renderer; begins = true }

attempt-FrameFinds : (b : Buffer) → FrameFinds env 0 (attempt b)
attempt-FrameFinds b = record { mode = (window_size, refl); geo = λ l. nowhere; places = tt }

-- A window and a layer surface are created, and committed; popups are, and one grabs.
abbrev requests : List (Env desktop × ClientRequest)
requests =
    (env, creates_window 5)
    ∷ (env, creates_layer 20 none)
    ∷ (env, commits_surface 5)
    ∷ (env, commits_surface 20)
    ∷ (env, creates_popup 30 1)
    ∷ (env, repositions_popup 30 2 3)
    ∷ (env, creates_layer_popup 31)
    ∷ (env, grabs_popup 12 7 4)
    ∷ []

serves : Serves env
serves = record {
  commits = record { maps = λ l o. refl; configures = λ p. refl };
  tracks = λ p. refl;
}

requests-Serves : All (λ e. Serves e.0) requests
requests-Serves = (serves, (serves, (serves, (serves, (serves, (serves, (serves, (serves, tt))))))))

-- The window is closed in the second iteration.
abbrev batches : List (Batch desktop)
batches =
    record {
      env = env;
      events = events;
      closed = false;
      frames = attempt drawn_frame ∷ attempt lost_frame ∷ [];
      requests = requests;
      serves = true;
    }
    ∷ record { env = env; events = []; closed = true; frames = []; requests = []; serves = true }
    ∷ []

batches-GoesWell : All (GoesWell 0 (7 ∷ [])) batches
batches-GoesWell = (
  record {
    is_open = refl;
    serves = refl;
    around = all_around;
    commits = requests-Serves;
    finds = (attempt-FrameFinds drawn_frame, (attempt-FrameFinds lost_frame, tt));
    calm = λ e. ground arith;
  },
  (
    record {
      is_open = refl;
      serves = refl;
      around = tt;
      commits = tt;
      finds = tt;
      calm = λ e. refl;
    },
    tt,
  ),
)

run_loop-init_backend_example :
    (c : CommonState desktop) × (d1 : World desktop) × (s : FrameState) × (c' : CommonState desktop)
    × (d2 : World desktop) × (new_state env quiet 7 nothing ≡ ok (c, d1))
    × (init_backend env none c d1 0 (some window_size) ≡ ok (some (winit 0 s, c', d2)))
    × Returns (λ r. r.0 ≡ true) (run_loop mouse true (winit 0 s) c' d2 batches)
unfolding any
run_loop-init_backend_example =
    run_loop-init_backend env quiet 7 nothing 0 window_size mouse batches refl batches-GoesWell
