-- ===== src/Workspace/Coherence.antt =====
-- src/shell/workspace.rs: the table of fullscreen windows agrees with what the clients were told.
use electrum.Prelude.{
  ◌==◌, if◌then◌else◌, ==_iff, Bool-cases, Option-cases, any, retain, lookup, insert, Outcome, ok,
  ◌>>=◌, String, ◌≡◌, refl, inl, inr, Bool, true, false, not, ◌&&◌, ◌||◌, none, List, [], ◌∷◌,
  arith,
}
use electrum.Smithay.{Window, Output, fullscreen, Smithay}
use electrum.World.{RuntimeMessage, send, World, Env, emit, send_message}
use electrum.Workspace.{
  Workspace, is_fullscreen, without, maximize_request, resize_request, fullscreen_request,
  unfullscreen_request, unmaximize_request, unfullscreen_all, dead_windows, refresh, Request,
  fullscreens, unfullscreens, unmaximizes, maximizes, resizes, refreshes, step,
}
use electrum.Workspace.Fullscreen.{left}

is_fullscreen-insert_free :
    (n : String) (w v : Window) (m : List (String × Window))
    → lookup n m ≡ none
    → is_fullscreen (insert n w m) v ≡ (w == v) || is_fullscreen m v
unfolding any insert lookup
is_fullscreen-insert_free n w v [] h = refl
is_fullscreen-insert_free n w v (e ∷ m) h = ground (arith, is_fullscreen-insert_free n w v m)

is_fullscreen-without_any :
    (w v : Window) (m : List (String × Window))
    → is_fullscreen (without w m) v ≡ not (w == v) && is_fullscreen m v
unfolding any retain
is_fullscreen-without_any w v [] = ground arith
is_fullscreen-without_any w v (e ∷ m) = ground (arith, is_fullscreen-without_any w v m)

is_fullscreen-retain :
    (p : Window → Bool) (v : Window) (m : List (String × Window))
    → is_fullscreen (retain (λ e. p e.1) m) v ≡ p v && is_fullscreen m v
unfolding any retain
is_fullscreen-retain p v [] = ground arith
is_fullscreen-retain p v (e ∷ m) = elim (Bool-cases (e.1 == v)) [
  | inl here ↦ rw ((==_iff e.1 v).0 here) (ground (arith, is_fullscreen-retain p v m))
  | inr other ↦ ground (arith, is_fullscreen-retain p v m)
]

module _ {sm : Smithay} where
  -- Whether a window's pending state says that it is fullscreen.
  abbrev pub told : World sm → Window → Bool
  told d w = sm.contains_state (d.pending w).states fullscreen

  -- A window in the table was told that it is fullscreen, and a live window that was told so is in
  -- the table.
  pub record IsCoherent (env : Env sm) (ws : Workspace sm) (d : World sm) : Type 0 where
    pub shown : (w : Window) → is_fullscreen ws.fullscreen w ≡ true → told d w ≡ true
    pub hidden :
        (w : Window) → env.alive w ≡ true → told d w ≡ true → is_fullscreen ws.fullscreen w ≡ true

  abbrev Keeps : Env sm → Outcome (Workspace sm × World sm) → Type 0
  Keeps env r = (ws' : Workspace sm) × (d' : World sm) × (r ≡ ok (ws', d')) × IsCoherent env ws' d'

  module _ (env : Env sm) (run : env.runtime_open ≡ true) where
    left-IsCoherent :
        (ws : Workspace sm) (d : World sm) (w : Window)
        → IsCoherent env ws d
        → IsCoherent env (record ws { fullscreen = without w ws.fullscreen }) (left env d w)
    left-IsCoherent ws d w c = record {
      shown = λ v h. ground (
        arith,
        c.shown v,
        is_fullscreen-without_any w v ws.fullscreen,
        sm.contains-unset_state (d.pending w).states fullscreen fullscreen,
      );
      hidden = λ v a h. ground (
        arith,
        c.hidden v,
        is_fullscreen-without_any w v ws.fullscreen,
        sm.contains-unset_state (d.pending w).states fullscreen fullscreen,
      );
    }

    unfullscreen_request-Keeps :
        (ws : Workspace sm) (d : World sm) (w : Window)
        → IsCoherent env ws d
        → Keeps env (unfullscreen_request env ws d w)
    unfolding unfullscreen_request send_message
    unfullscreen_request-Keeps ws d w c = elim (Bool-cases (is_fullscreen ws.fullscreen w)) [
      | inl e ↦ (
        record ws { fullscreen = without w ws.fullscreen },
        left env d w,
        ground arith,
        left-IsCoherent ws d w c,
      )
      | inr e ↦ (ws, d, ground arith, c)
    ]

    unfullscreen_all-Keeps :
        (dead : List Window) (ws : Workspace sm) (d : World sm)
        → IsCoherent env ws d
        → Keeps env (unfullscreen_all env dead ws d)
    unfolding unfullscreen_all
    unfullscreen_all-Keeps [] ws d c = (ws, d, refl, c)
    unfullscreen_all-Keeps (w ∷ dead) ws d c =
        let (ws', d', e, c') = unfullscreen_request-Keeps ws d w c in
        rw e (unfullscreen_all-Keeps dead ws' d' c')

    refresh-Keeps :
        (ws : Workspace sm) (d : World sm) → IsCoherent env ws d → Keeps env (refresh env ws d)
    unfolding refresh
    refresh-Keeps ws d c =
        let (ws', d', e, c') =
          unfullscreen_all-Keeps (dead_windows env (sm.space_outputs ws.space) ws.fullscreen) ws d
            c in
        (
          record ws' {
            fullscreen = retain (λ e. env.alive e.1) ws'.fullscreen;
            space = sm.refresh_space ws'.space;
          },
          d',
          rw e,
          record {
            shown =
                λ v h. ground (arith, c'.shown v, is_fullscreen-retain env.alive v ws'.fullscreen);
            hidden = λ v a h.
                ground (arith, c'.hidden v, is_fullscreen-retain env.alive v ws'.fullscreen);
          },
        )

    fullscreen_request-IsCoherent :
        (ws : Workspace sm) (d : World sm) (w : Window) (o : Output)
        → IsCoherent env ws d
        → let (ws', d') = fullscreen_request env ws d w o in IsCoherent env ws' d'
    unfolding fullscreen_request
    fullscreen_request-IsCoherent ws d w o c =
        elim (Option-cases (lookup (env.output_name o) ws.fullscreen)) [
          | inr (v, taken) ↦ rw (taken, fullscreen_request) c
          | inl free ↦
              rw (free, fullscreen_request)
                (record {
                  shown = λ v h. ground (
                    arith,
                    c.shown v,
                    is_fullscreen-insert_free (env.output_name o) w v ws.fullscreen,
                    sm.contains-set_state (d.pending w).states fullscreen fullscreen,
                  );
                  hidden = λ v a h. ground (
                    arith,
                    c.hidden v,
                    is_fullscreen-insert_free (env.output_name o) w v ws.fullscreen,
                    sm.contains-set_state (d.pending w).states fullscreen fullscreen,
                  );
                })
        ]

    sent-IsCoherent :
        (ws : Workspace sm) (d : World sm) (m : RuntimeMessage)
        → IsCoherent env ws d
        → IsCoherent env ws (emit d (send m))
    sent-IsCoherent ws d m c = record { shown = c.shown; hidden = c.hidden }

    dropped_or_sent-Keeps :
        (ws : Workspace sm) (d : World sm) (drops : Bool) (m : RuntimeMessage)
        → IsCoherent env ws d
        → Keeps env ((if drops then ok d else send_message env d m) >>= λ d'. ok (ws, d'))
    unfolding send_message
    dropped_or_sent-Keeps ws d true m c = (ws, d, refl, c)
    dropped_or_sent-Keeps ws d false m c = (ws, emit d (send m), rw run, sent-IsCoherent ws d m c)

    -- With a live channel to the runtime no request panics, and each keeps the table and the
    -- clients' pending states in agreement.
    pub step-IsCoherent :
        (ws : Workspace sm) (d : World sm) (r : Request)
        → IsCoherent env ws d
        → (ws' : Workspace sm) × (d' : World sm) × (step env ws d r ≡ ok (ws', d'))
          × IsCoherent env ws' d'
    unfolding step maximize_request resize_request unmaximize_request send_message
    step-IsCoherent ws d (fullscreens w o) c =
        let (ws', d') = fullscreen_request env ws d w o in
        (ws', d', refl, fullscreen_request-IsCoherent ws d w o c)
    step-IsCoherent ws d (unfullscreens w) c = unfullscreen_request-Keeps ws d w c
    step-IsCoherent ws d (unmaximizes w) c = elim (Bool-cases (is_fullscreen ws.fullscreen w)) [
      | inl e ↦ rw e (unfullscreen_request-Keeps ws d w c)
      | inr e ↦ (
        ws,
        emit d (send (RuntimeMessage.unmaximize_request w)),
        ground arith,
        sent-IsCoherent ws d (RuntimeMessage.unmaximize_request w) c,
      )
    ]
    step-IsCoherent ws d (maximizes w o) c =
        dropped_or_sent-Keeps ws d (is_fullscreen ws.fullscreen w)
          (RuntimeMessage.maximize_request w o) c
    step-IsCoherent ws d (resizes w seat serial start_data edges) c =
        dropped_or_sent-Keeps ws d (is_fullscreen ws.fullscreen w)
          (RuntimeMessage.resize_request w seat serial start_data edges) c
    step-IsCoherent ws d refreshes c = refresh-Keeps ws d c
