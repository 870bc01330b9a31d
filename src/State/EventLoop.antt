-- ===== src/State/EventLoop.antt =====
-- src/main.rs: one iteration of the event loop, and the messages of the script runtime.
use electrum.Prelude.{
  if◌then◌else◌, Outcome, ok, panic, ◌>>=◌, ◌≡◌, Bool, true, false, List, [], ◌∷◌,
}
use electrum.Smithay.{Output, Smithay}
use electrum.World.{RuntimeMessage, stop_loop, flush_clients, World, Env, emit, send_message}
use electrum.Shell.{active_workspace}
use electrum.Shell.Common.{CommonState, refresh_focus}
use electrum.Shell.Mapping.{refresh_shell}

-- The events of the channel from the runtime.
pub data CompositorEvent : Type 0 where
  ping_message closed : CompositorEvent

-- The callback of the display's source, with `should_stop`. On an error it sets `should_stop` and
-- passes the error on; `event_loop.run` returns the error of a source, on which `main` panics.
abbrev pub client_source : Bool → Bool → Outcome Bool
client_source should_stop true = ok should_stop
client_source should_stop false = panic

module _ {sm : Smithay} (env : Env sm) where
  -- What an iteration does while the loop goes on.
  unfoldable pub refresh_all : CommonState sm → World sm → Outcome (CommonState sm × World sm)
  refresh_all c d = do
    (sh, d1) ← refresh_shell env c.shell d
    (c', d2) ← refresh_focus env (record c { shell = sh }) d1
    ok (c', emit d2 flush_clients)

  -- The callback of `event_loop.run`: without outputs, or when it should stop, the loop is stopped.
  unfoldable pub iterate : Bool → CommonState sm → World sm → Outcome (CommonState sm × World sm)
  iterate should_stop c d =
      let refreshed = refresh_all c d in
      elim c.shell.outputs [
        | [] ↦ ok (c, emit d stop_loop)
        | _ ∷ _ ↦ if should_stop then ok (c, emit d stop_loop) else refreshed
      ]

  -- Without outputs the loop is stopped.
  pub iterate_without_outputs :
      (should_stop : Bool) (c : CommonState sm) (d : World sm)
      → c.shell.outputs ≡ []
      → iterate should_stop c d ≡ ok (c, emit d stop_loop)
  unfolding iterate
  iterate_without_outputs should_stop c d e = simp (iterate, e)

  -- With outputs it goes on, unless it should stop.
  pub iterate_with_outputs :
      (should_stop : Bool) (c : CommonState sm) (d : World sm) (o : Output) (os : List Output)
      → c.shell.outputs ≡ o ∷ os
      → iterate should_stop c d
        ≡ (if should_stop then ok (c, emit d stop_loop) else refresh_all c d)
  unfolding iterate
  iterate_with_outputs should_stop c d o os e = simp (iterate, e)

  -- The callback of the channel; a closed channel is a `todo!`.
  unfoldable pub receive : CommonState sm → World sm → CompositorEvent → Outcome (World sm)
  receive c d closed = panic
  receive c d ping_message = do
    _ ← active_workspace c.shell.workspaces
    send_message env d RuntimeMessage.ping
