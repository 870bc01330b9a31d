-- ===== src/State/Start.antt =====
-- src/state/mod.rs and src/shell/mod.rs: the state that the compositor starts with.
use electrum.Prelude.{Outcome, ok, ◌>>=◌, [], ◌∷◌}
use electrum.Smithay.{Seat, Smithay}
use electrum.World.{World, Env}
use electrum.Workspace.{new_workspace}
use electrum.Shell.{Shell}
use electrum.Shell.Common.{CommonState}
use electrum.Input.Seats.{add_seat}

module _ {sm : Smithay} where
  -- `Shell::new`, over an empty space.
  unfoldable pub new_shell : sm.Space → Shell sm
  new_shell empty = record {
    workspaces = new_workspace sm 0 empty ∷ [];
    outputs = [];
    pending_windows = [];
    pending_layers = [];
  }

  -- `State::new`: one seat, which is the last active one.
  unfoldable pub new_state :
      Env sm → World sm → Seat → sm.Space → Outcome (CommonState sm × World sm)
  new_state env d initial_seat empty = do
    d' ← add_seat env d initial_seat
    ok (
      record {
        shell = new_shell empty;
        seats = initial_seat ∷ [];
        last_active_seat = initial_seat;
      },
      d',
    )
