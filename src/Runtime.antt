-- ===== src/Runtime.antt =====
-- src/runtime/mod.rs, src/runtime/messages.rs and the callback of src/main.rs: the two channels
-- between the compositor and the script runtime.
pub mod Posting
pub mod Fatal
pub mod Flight
pub mod Modules
use electrum.Prelude.{get_elem?, Outcome, ok, panic, ◌>>=◌, ℕ, ◌+◌, none, some, List, [], ◌∷◌, ◌++◌}
use electrum.Smithay.{Smithay}
use electrum.World.{RuntimeMessage, ping, Effect, send, World, Env}
use electrum.Shell.Common.{CommonState}
use electrum.State.EventLoop.{CompositorEvent, ping_message, receive}

-- What the runtime's callback is called with.
pub data RuntimeEvent : Type 0 where
  message : RuntimeMessage → RuntimeEvent
  senders_gone : RuntimeEvent

-- The callback of the runtime's channel, with the message that it sends back. Whatever is not a
-- ping is a `todo!`.
unfoldable pub runtime_callback : RuntimeEvent → Outcome CompositorEvent
runtime_callback (message RuntimeMessage.ping) = ok ping_message
runtime_callback (message (RuntimeMessage.maximize_request w o)) = panic
runtime_callback (message (RuntimeMessage.unmaximize_request w)) = panic
runtime_callback (message (RuntimeMessage.resize_request w seat serial start_data edges)) = panic
runtime_callback (message (RuntimeMessage.unfullscreen_request w)) = panic
runtime_callback senders_gone = panic

-- How many of the messages to the runtime were delivered, and what waits for the compositor.
pub record Queues : Type 0 where
  pub delivered : ℕ
  pub to_compositor : List CompositorEvent

-- Which of the two channels the event loop serves next.
pub data Turn : Type 0 where
  runtime_turn compositor_turn : Turn

module _ {sm : Smithay} where
  -- The messages to the runtime among the calls that went out, the first one first.
  unfoldable pub posted : List (Effect sm) → List RuntimeMessage
  posted [] = []
  posted (send m ∷ es) = posted es ++ m ∷ []
  posted (_ ∷ es) = posted es

  unfoldable pub turn :
      Env sm → CommonState sm → World sm → Queues → Turn → Outcome (World sm × Queues)
  turn env c d q runtime_turn = elim (get_elem? (posted d.effects) q.delivered) [
    | none ↦ ok (d, q)
    | some m ↦ do
      answer ← runtime_callback (message m)
      ok (d, record { delivered = q.delivered + 1; to_compositor = q.to_compositor ++ answer ∷ [] })
  ]
  turn env c d q compositor_turn = elim q.to_compositor [
    | [] ↦ ok (d, q)
    | event ∷ events ↦ do d' ← receive env c d event; ok (d', record q { to_compositor = events })
  ]

  pub turns : Env sm → CommonState sm → World sm → Queues → List Turn → Outcome (World sm × Queues)
  turns env c d q [] = ok (d, q)
  turns env c d q (t ∷ ts) = do (d', q') ← turn env c d q t; turns env c d' q' ts
