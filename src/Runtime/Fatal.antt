-- ===== src/Runtime/Fatal.antt =====
-- src/shell/workspace.rs and src/runtime/mod.rs: which requests send something to the runtime, and
-- how that ends.
use mathlib.Core.List.{append_assoc}
use electrum.Prelude.{
  ◌==◌, ==-refl, Bool-cases, Option-cases, length, any, retain, get_elem?-length, lookup, ok, panic,
  String, ◌≡◌, refl, sym, ap, ◌∙◌, ◌⊎◌, inl, inr, Bool, true, false, not, List, [], ◌∷◌, ◌++◌,
  arith,
}
use electrum.Smithay.{Window, Output, Smithay}
use electrum.World.{RuntimeMessage, send, World, Env, emit, send_message}
use electrum.Workspace.{
  Workspace, is_fullscreen, without, maximize_request, resize_request, fullscreen_request,
  unfullscreen_request, unmaximize_request, unfullscreen_all, dead_windows, refresh, Request,
  fullscreens, unfullscreens, unmaximizes, maximizes, resizes, refreshes, step,
}
use electrum.Workspace.Fullscreen.{left}
use electrum.Workspace.Refresh.{is_gone, is_connected-is_gone}
use electrum.Shell.Common.{CommonState}
use electrum.Runtime.{Queues, runtime_turn, posted, turn}
use electrum.Runtime.Posting.{is_ping, runtime_callback-panics, PostsNoPing, unfullscreen_all-Posts}

-- Some entry of the table of fullscreen windows is the window's.
abbrev pub has_entry : List (String × Window) → Window → Bool
has_entry m w = any (λ e. e.1 == w) m

is_fullscreen-has_entry :
    (m : List (String × Window)) (w : Window) → is_fullscreen m w ≡ has_entry m w
unfolding any
is_fullscreen-has_entry [] w = refl
is_fullscreen-has_entry (e ∷ m) w = ground (arith, is_fullscreen-has_entry m w)

not-false : (b : Bool) → not b ≡ false → b ≡ true
not-false true h = refl
not-false false h = sym h

not-true : (b : Bool) → not b ≡ true → b ≡ false
not-true true h = sym h
not-true false h = refl

module _ {sm : Smithay} where
  -- A message, and whatever is sent after it.
  follows :
      (d1 d2 d : World sm) (w : Window)
      → posted d1.effects ≡ posted d.effects ++ RuntimeMessage.unfullscreen_request w ∷ []
      → PostsNoPing d1 d2
      → (ms : List RuntimeMessage) × (posted d2.effects
          ≡ posted d.effects ++ RuntimeMessage.unfullscreen_request w ∷ ms)
  follows d1 d2 d w e (inl same) = ([], same ∙ e)
  follows d1 d2 d w e (inr (m, ms, f, more)) = (
    m ∷ ms,
    more
        ∙ ap (λ xs. xs ++ m ∷ ms) e
        ∙ append_assoc (posted d.effects) (RuntimeMessage.unfullscreen_request w ∷ []) (m ∷ ms),
  )

module _ {sm : Smithay} (env : Env sm) where
  -- The requests that send something to the runtime: to leave fullscreen, of a window that is
  -- fullscreen; to unmaximize; to maximize and to resize a window that is not fullscreen; and a
  -- refresh when the output of a fullscreen window is gone.
  abbrev pub is_sent : Workspace sm → Request → Bool
  is_sent ws (fullscreens w o) = false
  is_sent ws (unfullscreens w) = has_entry ws.fullscreen w
  is_sent ws (unmaximizes w) = true
  is_sent ws (maximizes w o) = not (has_entry ws.fullscreen w)
  is_sent ws (resizes w seat serial start_data edges) = not (has_entry ws.fullscreen w)
  is_sent ws refreshes = any (λ e. is_gone env (sm.space_outputs ws.space) e.0) ws.fullscreen

  dead_windows-nil :
      (outputs : List Output) (m : List (String × Window))
      → any (λ e. is_gone env outputs e.0) m ≡ false
      → dead_windows env outputs m ≡ []
  unfolding dead_windows retain any
  dead_windows-nil outputs [] h = refl
  dead_windows-nil outputs (e ∷ m) h =
      ground (arith, is_connected-is_gone env outputs e.0, dead_windows-nil outputs m, h)

  dead_windows-cons :
      (outputs : List Output) (m : List (String × Window))
      → any (λ e. is_gone env outputs e.0) m ≡ true
      → (w : Window) × (rest : List Window) × (dead_windows env outputs m ≡ w ∷ rest)
        × (has_entry m w ≡ true)
  unfolding dead_windows retain any
  dead_windows-cons outputs [] h = ground arith
  dead_windows-cons outputs (e ∷ m) h = elim (Bool-cases (is_gone env outputs e.0)) [
    | inl g ↦ (
      e.1,
      dead_windows env outputs m,
      rw (is_connected-is_gone env outputs e.0) (rw g refl),
      rw (==-refl e.1) refl,
    )
    | inr g ↦
        let (w, rest, is, there) = dead_windows-cons outputs m (rw g at h) in
        (w, rest, rw (is_connected-is_gone env outputs e.0) (rw g is), ground (arith, there))
  ]

  -- A request that sends nothing runs through, whether or not the channel is open.
  step-silent :
      (ws : Workspace sm) (d : World sm) (r : Request)
      → is_sent ws r ≡ false
      → (ws' : Workspace sm) × (d' : World sm) × (step env ws d r ≡ ok (ws', d'))
        × (posted d'.effects ≡ posted d.effects)
  unfolding step maximize_request resize_request unmaximize_request unfullscreen_request refresh
      unfullscreen_all fullscreen_request posted
  step-silent ws d (fullscreens w o) h =
      let r = fullscreen_request env ws d w o in
      (
        r.0,
        r.1,
        refl,
        elim (Option-cases (lookup (env.output_name o) ws.fullscreen)) [
          | inl e ↦ rw (fullscreen_request, e) refl
          | inr (v, e) ↦ rw (fullscreen_request, e) refl
        ],
      )
  step-silent ws d (unfullscreens w) h =
      (ws, d, rw (is_fullscreen-has_entry ws.fullscreen w) (rw h refl), refl)
  step-silent ws d (unmaximizes w) h = ground arith
  step-silent ws d (maximizes w o) h = (
    ws,
    d,
    rw (is_fullscreen-has_entry ws.fullscreen w)
        (rw (not-false (has_entry ws.fullscreen w) h) refl),
    refl,
  )
  step-silent ws d (resizes w seat serial start_data edges) h = (
    ws,
    d,
    rw (is_fullscreen-has_entry ws.fullscreen w)
        (rw (not-false (has_entry ws.fullscreen w) h) refl),
    refl,
  )
  step-silent ws d refreshes h = (
    record ws {
      fullscreen = retain (λ e. env.alive e.1) ws.fullscreen;
      space = sm.refresh_space ws.space;
    },
    d,
    rw (refresh, dead_windows-nil (sm.space_outputs ws.space) ws.fullscreen h) refl,
    refl,
  )

  -- While the channel is closed, one that sends something panics.
  step-closed :
      (ws : Workspace sm) (d : World sm) (r : Request)
      → env.runtime_open ≡ false
      → is_sent ws r ≡ true
      → step env ws d r ≡ panic
  unfolding step maximize_request resize_request unmaximize_request unfullscreen_request refresh
      unfullscreen_all send_message
  step-closed ws d (fullscreens w o) closed h = ground arith
  step-closed ws d (unfullscreens w) closed h =
      rw (is_fullscreen-has_entry ws.fullscreen w) (rw (h, closed) refl)
  step-closed ws d (unmaximizes w) closed h = elim (Bool-cases (is_fullscreen ws.fullscreen w)) [
    | inl e ↦ rw (e, closed) refl
    | inr e ↦ rw (e, closed) refl
  ]
  step-closed ws d (maximizes w o) closed h =
      rw (is_fullscreen-has_entry ws.fullscreen w)
        (rw (not-true (has_entry ws.fullscreen w) h, closed) refl)
  step-closed ws d (resizes w seat serial start_data edges) closed h =
      rw (is_fullscreen-has_entry ws.fullscreen w)
        (rw (not-true (has_entry ws.fullscreen w) h, closed) refl)
  step-closed ws d refreshes closed h =
      let (w, rest, is, there) = dead_windows-cons (sm.space_outputs ws.space) ws.fullscreen h in
      rw (refresh, is) (rw (is_fullscreen-has_entry ws.fullscreen w) (rw (there, closed) refl))

  -- While it is open, such a request runs through and sends a message that is not a ping.
  abbrev Sends : Workspace sm → World sm → Request → Type 0
  Sends ws d r =
      (ws' : Workspace sm) × (d' : World sm) × (m : RuntimeMessage) × (ms : List RuntimeMessage)
      × (step env ws d r ≡ ok (ws', d'))
      × (is_ping m ≡ false)
      × (posted d'.effects ≡ posted d.effects ++ m ∷ ms)

  module _ (is_open : env.runtime_open ≡ true) where
    leaves :
        (ws : Workspace sm) (d : World sm) (w : Window)
        → is_fullscreen ws.fullscreen w ≡ true
        → unfullscreen_request env ws d w
          ≡ ok (record ws { fullscreen = without w ws.fullscreen }, left env d w)
    unfolding unfullscreen_request send_message
    leaves ws d w e = rw (e, is_open) refl

    posted-left :
        (d : World sm) (w : Window)
        → posted (left env d w).effects
          ≡ posted d.effects ++ RuntimeMessage.unfullscreen_request w ∷ []
    unfolding posted
    posted-left d w = refl

    step-Sends :
        (ws : Workspace sm) (d : World sm) (r : Request) → is_sent ws r ≡ true → Sends ws d r
    unfolding step maximize_request resize_request unmaximize_request refresh unfullscreen_all
        send_message posted
    step-Sends ws d (fullscreens w o) h = ground arith
    step-Sends ws d (unfullscreens w) h =
        let e = is_fullscreen-has_entry ws.fullscreen w ∙ h in
        (
          record ws { fullscreen = without w ws.fullscreen },
          left env d w,
          RuntimeMessage.unfullscreen_request w,
          [],
          leaves ws d w e,
          refl,
          posted-left d w,
        )
    step-Sends ws d (unmaximizes w) h = elim (Bool-cases (is_fullscreen ws.fullscreen w)) [
      | inl e ↦ (
        record ws { fullscreen = without w ws.fullscreen },
        left env d w,
        RuntimeMessage.unfullscreen_request w,
        [],
        rw e (leaves ws d w e),
        refl,
        posted-left d w,
      )
      | inr e ↦ (
        ws,
        emit d (send (RuntimeMessage.unmaximize_request w)),
        RuntimeMessage.unmaximize_request w,
        [],
        rw (e, is_open) refl,
        refl,
        refl,
      )
    ]
    step-Sends ws d (maximizes w o) h = (
      ws,
      emit d (send (RuntimeMessage.maximize_request w o)),
      RuntimeMessage.maximize_request w o,
      [],
      rw (is_fullscreen-has_entry ws.fullscreen w)
          (rw (not-true (has_entry ws.fullscreen w) h, is_open) refl),
      refl,
      refl,
    )
    step-Sends ws d (resizes w seat serial start_data edges) h = (
      ws,
      emit d (send (RuntimeMessage.resize_request w seat serial start_data edges)),
      RuntimeMessage.resize_request w seat serial start_data edges,
      [],
      rw (is_fullscreen-has_entry ws.fullscreen w)
          (rw (not-true (has_entry ws.fullscreen w) h, is_open) refl),
      refl,
      refl,
    )
    step-Sends ws d refreshes h =
        let (w, rest, is, there) = dead_windows-cons (sm.space_outputs ws.space) ws.fullscreen h in
        let e = is_fullscreen-has_entry ws.fullscreen w ∙ there in
        let ws1 = record ws { fullscreen = without w ws.fullscreen } in
        let ((ws2, d2), goes_on, (_, later)) =
          unfullscreen_all-Posts env is_open rest ws1 (left env d w) in
        let (ms, sent) = follows (left env d w) d2 d w (posted-left d w) later in
        (
          record ws2 {
            fullscreen = retain (λ x. env.alive x.1) ws2.fullscreen;
            space = sm.refresh_space ws2.space;
          },
          d2,
          RuntimeMessage.unfullscreen_request w,
          ms,
          rw (refresh, is) (rw (leaves ws d w e) (rw goes_on refl)),
          refl,
          sent,
        )

  -- A request or a refresh either sends nothing to the runtime and runs through, or it sends
  -- something and takes the compositor down: it panics itself if the channel to the runtime is
  -- closed, and otherwise the runtime panics as soon as it is served, when it has been served
  -- whatever came before. It sends something exactly when it asks to leave fullscreen a window that
  -- is fullscreen, to unmaximize a window, to maximize or to resize a window that is not fullscreen,
  -- or when a refresh finds a fullscreen window whose output is gone.
  pub step-turn :
      (ws : Workspace sm) (d : World sm) (r : Request) (c : CommonState sm) (q : Queues)
      → q.delivered ≡ length (posted d.effects)
      → ((is_sent ws r ≡ false)
          × ((ws' : Workspace sm) × (d' : World sm) × (step env ws d r ≡ ok (ws', d'))
              × (posted d'.effects ≡ posted d.effects)))
        ⊎ ((is_sent ws r ≡ true) × (env.runtime_open ≡ false) × (step env ws d r ≡ panic))
        ⊎ ((is_sent ws r ≡ true)
            × (env.runtime_open ≡ true)
            × ((ws' : Workspace sm) × (d' : World sm) × (step env ws d r ≡ ok (ws', d'))
                × (turn env c d' q runtime_turn ≡ panic)))
  unfolding turn
  step-turn ws d r c q served = elim (Bool-cases (is_sent ws r)) [
    | inr h ↦ inl (h, step-silent ws d r h)
    | inl h ↦ elim (Bool-cases env.runtime_open) [
      | inr closed ↦ inr (inl (h, closed, step-closed ws d r closed h))
      | inl is_open ↦
          let (ws', d', m, ms, runs, f, e) = step-Sends is_open ws d r h in
          inr (
            inr (
              h,
              is_open,
              (
                ws',
                d',
                runs,
                rw (turn, e, served, get_elem?-length (posted d.effects) m ms)
                    (rw (runtime_callback-panics m f) refl),
              ),
            ))
    ]
  ]
