-- ===== src/Runtime/Posting.antt =====
-- src/shell/workspace.rs and src/runtime/mod.rs: what the requests of clients send to the runtime,
-- and what the runtime does with it.
use mathlib.Core.List.{append_assoc}
use electrum.Prelude.{
  if◌then◌else◌, Bool-cases, Option-cases, retain, lookup, ok, panic, Returns, ◌≡◌, refl, ap, ◌∙◌,
  ◌⊎◌, inl, inr, Bool, true, false, List, [], ◌∷◌, ◌++◌, arith,
}
use electrum.Smithay.{Window, Smithay}
use electrum.World.{RuntimeMessage, send, World, Env, emit, send_message}
use electrum.Workspace.{
  Workspace, is_fullscreen, without, maximize_request, resize_request, fullscreen_request,
  unfullscreen_request, unmaximize_request, unfullscreen_all, dead_windows, refresh, Request,
  fullscreens, unfullscreens, unmaximizes, maximizes, resizes, refreshes, step,
}
use electrum.Smithay.{Window}
use electrum.Workspace.Fullscreen.{left}
use electrum.Runtime.{message, runtime_callback, posted}

abbrev pub is_ping : RuntimeMessage → Bool
is_ping RuntimeMessage.ping = true
is_ping _ = false

pub runtime_callback-panics :
    (m : RuntimeMessage) → is_ping m ≡ false → runtime_callback (message m) ≡ panic
unfolding runtime_callback
runtime_callback-panics RuntimeMessage.ping e = ground arith
runtime_callback-panics (RuntimeMessage.maximize_request w o) e = refl
runtime_callback-panics (RuntimeMessage.unmaximize_request w) e = refl
runtime_callback-panics (RuntimeMessage.resize_request w seat serial start_data edges) e = refl
runtime_callback-panics (RuntimeMessage.unfullscreen_request w) e = refl

module _ {sm : Smithay} where
  -- Nothing was posted, or the first message that was posted is not a ping.
  abbrev pub PostsNoPing : World sm → World sm → Type 0
  PostsNoPing d d' =
      (posted d'.effects ≡ posted d.effects)
      ⊎ ((m : RuntimeMessage) × (ms : List RuntimeMessage) × (is_ping m ≡ false)
          × (posted d'.effects ≡ posted d.effects ++ m ∷ ms))

  -- The same, and the user data of seats stays.
  abbrev pub Posts : World sm → World sm → Type 0
  Posts d d' = (d'.seat_data ≡ d.seat_data) × PostsNoPing d d'

  pub PostsNoPing-trans :
      (d d1 d2 : World sm) → PostsNoPing d d1 → PostsNoPing d1 d2 → PostsNoPing d d2
  PostsNoPing-trans d d1 d2 (inl e) (inl e') = inl (e' ∙ e)
  PostsNoPing-trans d d1 d2 (inl e) (inr (m, ms, f, e')) =
      inr (m, ms, f, e' ∙ ap (λ xs. xs ++ m ∷ ms) e)
  PostsNoPing-trans d d1 d2 (inr (m, ms, f, e)) (inl e') = inr (m, ms, f, e' ∙ e)
  PostsNoPing-trans d d1 d2 (inr (m, ms, f, e)) (inr (m', ms', f', e')) = inr (
    m,
    ms ++ m' ∷ ms',
    f,
    e' ∙ ap (λ xs. xs ++ m' ∷ ms') e ∙ append_assoc (posted d.effects) (m ∷ ms) (m' ∷ ms'),
  )

  Posts-trans : (d d1 d2 : World sm) → Posts d d1 → Posts d1 d2 → Posts d d2
  Posts-trans d d1 d2 (seats, posts) (seats', posts') =
      (seats' ∙ seats, PostsNoPing-trans d d1 d2 posts posts')

  module _ (env : Env sm) (is_open : env.runtime_open ≡ true) where
    pub send_message-Posts :
        (d : World sm) (m : RuntimeMessage)
        → is_ping m ≡ false
        → Returns (Posts d) (send_message env d m)
    unfolding send_message posted
    send_message-Posts d m f = (emit d (send m), rw is_open refl, (refl, inr (m, [], f, refl)))

    unfullscreen_request-Posts :
        (ws : Workspace sm) (d : World sm) (w : Window)
        → Returns (λ r. Posts d r.1) (unfullscreen_request env ws d w)
    unfolding unfullscreen_request posted send_message
    unfullscreen_request-Posts ws d w = elim (Bool-cases (is_fullscreen ws.fullscreen w)) [
      | inl e ↦ (
        (record ws { fullscreen = without w ws.fullscreen }, left env d w),
        rw (e, is_open) refl,
        (refl, inr (RuntimeMessage.unfullscreen_request w, [], refl, refl)),
      )
      | inr e ↦ ((ws, d), rw e refl, (refl, inl refl))
    ]

    pub unfullscreen_all-Posts :
        (dead : List Window) (ws : Workspace sm) (d : World sm)
        → Returns (λ r. Posts d r.1) (unfullscreen_all env dead ws d)
    unfolding unfullscreen_all
    unfullscreen_all-Posts [] ws d = ((ws, d), refl, (refl, inl refl))
    unfullscreen_all-Posts (w ∷ dead) ws d =
        let ((ws1, d1), runs, posts) = unfullscreen_request-Posts ws d w in
        let ((ws2, d2), goes_on, later) = unfullscreen_all-Posts dead ws1 d1 in
        ((ws2, d2), rw runs goes_on, Posts-trans d d1 d2 posts later)

    unless_fullscreen-Posts :
        (ws : Workspace sm) (d : World sm) (w : Window) (m : RuntimeMessage)
        → is_ping m ≡ false
        → Returns (Posts d) (if is_fullscreen ws.fullscreen w then ok d else send_message env d m)
    unless_fullscreen-Posts ws d w m f = elim (Bool-cases (is_fullscreen ws.fullscreen w)) [
      | inl e ↦ (d, rw e refl, (refl, inl refl))
      | inr e ↦ let (d', runs, posts) = send_message-Posts d m f in (d', rw e runs, posts)
    ]

    pub step-Posts :
        (ws : Workspace sm) (d : World sm) (r : Request)
        → Returns (λ x. Posts d x.1) (step env ws d r)
    unfolding step maximize_request resize_request unmaximize_request fullscreen_request refresh
        posted
    step-Posts ws d (fullscreens w o) =
        elim (Option-cases (lookup (env.output_name o) ws.fullscreen)) [
          | inl e ↦
              (fullscreen_request env ws d w o, refl, rw (fullscreen_request, e) (refl, inl refl))
          | inr (v, e) ↦
              (fullscreen_request env ws d w o, refl, rw (fullscreen_request, e) (refl, inl refl))
        ]
    step-Posts ws d (unfullscreens w) = unfullscreen_request-Posts ws d w
    step-Posts ws d (unmaximizes w) = elim (Bool-cases (is_fullscreen ws.fullscreen w)) [
      | inl e ↦ let (r, runs, posts) = unfullscreen_request-Posts ws d w in (r, rw e runs, posts)
      | inr e ↦
          let (d', runs, posts) = send_message-Posts d (RuntimeMessage.unmaximize_request w) refl in
          ((ws, d'), rw e (rw runs refl), posts)
    ]
    step-Posts ws d (maximizes w o) =
        let (d', runs, posts) =
          unless_fullscreen-Posts ws d w (RuntimeMessage.maximize_request w o) refl in
        ((ws, d'), rw runs refl, posts)
    step-Posts ws d (resizes w seat serial start_data edges) =
        let (d', runs, posts) =
          unless_fullscreen-Posts ws d w
            (RuntimeMessage.resize_request w seat serial start_data edges) refl in
        ((ws, d'), rw runs refl, posts)
    step-Posts ws d refreshes =
        let ((ws', d'), runs, posts) =
          unfullscreen_all-Posts (dead_windows env (sm.space_outputs ws.space) ws.fullscreen) ws
            d in
        (
          (
            record ws' {
              fullscreen = retain (λ e. env.alive e.1) ws'.fullscreen;
              space = sm.refresh_space ws'.space;
            },
            d',
          ),
          rw runs refl,
          posts,
        )
