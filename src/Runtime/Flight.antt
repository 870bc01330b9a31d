-- ===== src/Runtime/Flight.antt =====
-- src/main.rs and src/runtime/mod.rs: a ping that is under way goes back and forth for ever.
use electrum.Prelude.{
  Option-cases, length, get_elem?, length-append, get_elem?_in_range, ok, Returns, ℕ, zero, suc,
  ◌+◌, ◌-◌, ◌≤◌, ◌≡◌, refl, sym, ap, ◌∙◌, inl, inr, Bool, true, false, ◌&&◌, some, List, [], ◌∷◌,
  ◌++◌, arith,
}
use electrum.Smithay.{Smithay}
use electrum.World.{RuntimeMessage, send, World, Env, emit, send_message}
use electrum.Workspace.{Workspace}
use electrum.Shell.{active_workspace}
use electrum.Shell.Common.{CommonState}
use electrum.State.EventLoop.{CompositorEvent, ping_message, closed, receive}
use electrum.Runtime.{
  runtime_callback, Queues, Turn, runtime_turn, compositor_turn, posted, turn, turns,
}
use electrum.Runtime.Posting.{is_ping}

abbrev is_message : CompositorEvent → Bool
is_message ping_message = true
is_message closed = false

-- Every element of a list passes a test.
abbrev all_pass {ℓ} : {A : Type ℓ} → (A → Bool) → List A → Bool
all_pass p [] = true
all_pass p (x ∷ xs) = p x && all_pass p xs

all_pass-append {ℓ} :
    {A : Type ℓ} (p : A → Bool) (xs : List A) (y : A)
    → all_pass p xs ≡ true
    → p y ≡ true
    → all_pass p (xs ++ y ∷ []) ≡ true
all_pass-append p [] y h e = rw e refl
all_pass-append p (x ∷ xs) y h e = ground (arith, all_pass-append p xs y)

all_pass-get_elem? {ℓ} :
    {A : Type ℓ} (p : A → Bool) (xs : List A) (n : ℕ) (x : A)
    → all_pass p xs ≡ true
    → get_elem? xs n ≡ some x
    → p x ≡ true
all_pass-get_elem? p [] n x h e = ground arith
all_pass-get_elem? p (y ∷ xs) zero x h e = ground arith
all_pass-get_elem? p (y ∷ xs) (suc n) x h e = ground (arith, all_pass-get_elem? p xs n x)

is_ping-eq : (m : RuntimeMessage) → is_ping m ≡ true → m ≡ RuntimeMessage.ping
is_ping-eq RuntimeMessage.ping e = refl
is_ping-eq (RuntimeMessage.maximize_request w o) e = ground arith
is_ping-eq (RuntimeMessage.unmaximize_request w) e = ground arith
is_ping-eq (RuntimeMessage.resize_request w seat serial start_data edges) e = ground arith
is_ping-eq (RuntimeMessage.unfullscreen_request w) e = ground arith

module _ {sm : Smithay} where
  -- The messages that were sent and not yet served, on both channels.
  abbrev pub in_flight : World sm → Queues → ℕ
  in_flight d q = length (posted d.effects) - q.delivered + length q.to_compositor

  -- Nothing but pings was sent, on either channel, and no more was served than was sent.
  pub record OnlyPings (d : World sm) (q : Queues) : Type 0 where
    pub out : all_pass is_ping (posted d.effects) ≡ true
    pub back : all_pass is_message q.to_compositor ≡ true
    pub served : q.delivered ≤ length (posted d.effects)

  module _ (env : Env sm) (c : CommonState sm) (ws : Workspace sm)
      (is_open : env.runtime_open ≡ true)
      (first : active_workspace c.shell.workspaces ≡ ok ws) where
    compositor_served :
        (d : World sm) (q : Queues) (es : List CompositorEvent)
        → q.to_compositor ≡ es
        → OnlyPings d q
        → Returns
            (λ r. OnlyPings r.0 r.1 × (in_flight r.0 r.1 ≡ in_flight d q))
            (turn env c d q compositor_turn)
    unfolding turn receive send_message posted
    compositor_served d q [] e pings = ((d, q), simp (turn, e), (pings, refl))
    compositor_served d q (closed ∷ es) e pings =
        absurd (ground (arith, ap (all_pass is_message) (sym e) ∙ pings.back))
    compositor_served d q (ping_message ∷ es) e pings =
        let d' = emit d (send RuntimeMessage.ping) in
        let q' : Queues = record q { to_compositor = es } in
        let longer = length-append (posted d.effects) (RuntimeMessage.ping ∷ []) in
        (
          (d', q'),
          rw (turn, e) (rw first (rw is_open refl)),
          (
            record {
              out = all_pass-append is_ping (posted d.effects) RuntimeMessage.ping pings.out refl;
              back = ap (all_pass is_message) (sym e) ∙ pings.back;
              served = (let le = pings.served in ground (arith, longer));
            },
            (let le = pings.served in let es_length = ap length e in ground (arith, longer)),
          ),
        )

    turn-in_flight :
        (d : World sm) (q : Queues) (t : Turn)
        → OnlyPings d q
        → Returns (λ r. OnlyPings r.0 r.1 × (in_flight r.0 r.1 ≡ in_flight d q)) (turn env c d q t)
    unfolding turn posted runtime_callback
    turn-in_flight d q runtime_turn pings =
        elim (Option-cases (get_elem? (posted d.effects) q.delivered)) [
          | inl e ↦ ((d, q), rw (turn, e) refl, (pings, refl))
          | inr (m, e) ↦
              let is_it =
                is_ping-eq m
                  (all_pass-get_elem? is_ping (posted d.effects) q.delivered m pings.out e) in
              let q' : Queues = record {
                delivered = q.delivered + 1;
                to_compositor = q.to_compositor ++ ping_message ∷ [];
              } in
              let within = get_elem?_in_range (posted d.effects) q.delivered m e in
              let longer = length-append q.to_compositor (ping_message ∷ []) in
              (
                (d, q'),
                rw (turn, e, is_it) refl,
                (
                  record {
                    out = pings.out;
                    back = all_pass-append is_message q.to_compositor ping_message pings.back refl;
                    served = ground arith;
                  },
                  ground arith,
                ),
              )
        ]
    turn-in_flight d q compositor_turn pings = compositor_served d q q.to_compositor refl pings

    -- As long as only pings are sent, no turn of either side panics, in whatever order they come, and
    -- as many pings are under way after them as before: once one was sent, the channels never fall
    -- silent.
    pub turns-in_flight :
        (ts : List Turn) (d : World sm) (q : Queues)
        → OnlyPings d q
        → Returns
            (λ r. OnlyPings r.0 r.1 × (in_flight r.0 r.1 ≡ in_flight d q))
            (turns env c d q ts)
    unfolding turns
    turns-in_flight [] d q pings = ((d, q), refl, (pings, refl))
    turns-in_flight (t ∷ ts) d q pings =
        let ((d1, q1), runs, (pings1, same)) = turn-in_flight d q t pings in
        let ((d2, q2), goes_on, (pings2, same')) = turns-in_flight ts d1 q1 pings1 in
        ((d2, q2), rw runs goes_on, (pings2, same' ∙ same))
