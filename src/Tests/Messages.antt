-- ===== src/Tests/Messages.antt =====
-- src/runtime/mod.rs and src/main.rs: messages between the compositor and the runtime.
use electrum.Prelude.{
  ok, panic, Returns, String, ◌≡◌, refl, ◌⊎◌, true, false, some, List, [], ◌∷◌, arith,
}
use electrum.World.{World}
use electrum.Shell.Common.{CommonState}
use electrum.Workspace.{Workspace, Request, maximizes, step}
use electrum.State.EventLoop.{ping_message}
use electrum.Runtime.Modules.{
  type_script, java_script_module, ModuleSource, Scripts, kind_of, transpiled, load, ComesFrom,
  load-kind_of,
}
use electrum.Runtime.{Queues, Turn, runtime_turn, compositor_turn, posted, turn, turns}
use electrum.Runtime.Fatal.{is_sent, step-turn}
use electrum.Runtime.Flight.{in_flight, OnlyPings, turns-in_flight}
use electrum.Tests.Desktop.{desktop, quiet, env, workspace}

abbrev common : CommonState desktop
common = record {
  shell = record {
    workspaces = workspace ∷ [];
    outputs = 0 ∷ [];
    pending_windows = [];
    pending_layers = [];
  };
  seats = 7 ∷ [];
  last_active_seat = 7;
}

abbrev nothing_served : Queues
nothing_served = record { delivered = 0; to_compositor = [] }

-- Window 3 wants to be maximized.
abbrev wants_all : Request
wants_all = maximizes 3 0

step-turn_example :
    ((is_sent env workspace wants_all ≡ false)
      × ((ws' : Workspace desktop) × (d' : World desktop) × (step env workspace quiet wants_all
            ≡ ok (ws', d'))
          × (posted {sm = desktop} d'.effects ≡ posted {sm = desktop} quiet.effects)))
    ⊎ ((is_sent env workspace wants_all ≡ true)
        × (env.runtime_open ≡ false)
        × (step env workspace quiet wants_all ≡ panic))
    ⊎ ((is_sent env workspace wants_all ≡ true)
        × (env.runtime_open ≡ true)
        × ((ws' : Workspace desktop) × (d' : World desktop) × (step env workspace quiet wants_all
              ≡ ok (ws', d'))
            × (turn env common d' nothing_served runtime_turn ≡ panic)))
unfolding posted
step-turn_example = step-turn env workspace quiet wants_all common nothing_served refl

-- A ping waits for the compositor.
abbrev pinged : Queues
pinged = record { delivered = 0; to_compositor = ping_message ∷ [] }

abbrev schedule : List Turn
schedule = runtime_turn ∷ compositor_turn ∷ runtime_turn ∷ runtime_turn ∷ compositor_turn ∷ []

pinged-OnlyPings : OnlyPings quiet pinged
unfolding posted
pinged-OnlyPings = record { out = refl; back = refl; served = ground arith }

turns-in_flight_example :
    Returns
      (λ r. OnlyPings r.0 r.1 × (in_flight r.0 r.1 ≡ in_flight quiet pinged))
      (turns env common quiet pinged schedule)
turns-in_flight_example =
    turns-in_flight env common workspace refl refl schedule quiet pinged pinged-OnlyPings

-- Every specifier names a script in TypeScript, which is printed as it is.
abbrev scripts : Scripts
scripts = record {
  Parsed = String;
  to_file_path = λ s. some s;
  media_type_from = λ p. type_script;
  read_to_string = λ p. some "let x = 1";
  parse_module = λ s m t. some t;
  transpile = λ t. some t;
}

abbrev main_source : ModuleSource
main_source = record {
  code = "let x = 1";
  module_type = java_script_module;
  module_url_specified = "main.ts";
  module_url_found = "main.ts";
}

load-kind_of_example :
    (path text : String) × ((load scripts "main.ts").0 ≡ path ∷ [])
    × (scripts.to_file_path "main.ts" ≡ some path)
    × (scripts.read_to_string path ≡ some text)
    × (main_source.module_url_found ≡ "main.ts")
    × ComesFrom scripts "main.ts" (scripts.media_type_from path) text main_source
unfolding load kind_of transpiled
load-kind_of_example = load-kind_of scripts "main.ts" main_source refl
