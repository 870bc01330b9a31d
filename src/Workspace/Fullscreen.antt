-- ===== src/Workspace/Fullscreen.antt =====
-- src/shell/workspace.rs: entering and leaving fullscreen.
use electrum.Prelude.{
  if◌then◌else◌, Bool-cases, Option-cases, any, retain, lookup, insert, lookup-insert, ok, String,
  ◌≡◌, refl, ◌≢◌, ◌⊎◌, inl, inr, true, false, ◌&&◌, none, some, List, [], ◌∷◌, arith, str_eq,
}
use electrum.Smithay.{Window, Output, fullscreen, has, Smithay}
use electrum.World.{RuntimeMessage, send, World, Env, emit, send_message, set_pending}
use electrum.Workspace.{
  Workspace, is_fullscreen, without, output_size, fullscreen_request, unfullscreen_request,
  get_fullscreen,
}

without_absent :
    (w : Window) (m : List (String × Window)) → is_fullscreen m w ≡ false → without w m ≡ m
unfolding retain any
without_absent w [] h = refl
without_absent w (e ∷ m) h = ground (arith, without_absent w m)

pub is_fullscreen-without :
    (w : Window) (m : List (String × Window)) → is_fullscreen (without w m) w ≡ false
unfolding retain any
is_fullscreen-without w [] = refl
is_fullscreen-without w (e ∷ m) = ground (arith, is_fullscreen-without w m)

without-insert :
    (n : String) (w : Window) (m : List (String × Window))
    → lookup n m ≡ none
    → is_fullscreen m w ≡ false
    → without w (insert n w m) ≡ m
unfolding retain any lookup insert
without-insert n w [] h a = ground arith
without-insert n w (e ∷ m) h a = ground (arith, without-insert n w m)

is_fullscreen-insert :
    (n : String) (w : Window) (m : List (String × Window)) → is_fullscreen (insert n w m) w ≡ true
unfolding any insert
is_fullscreen-insert n w [] = ground arith
is_fullscreen-insert n w (e ∷ m) = ground (arith, is_fullscreen-insert n w m)

module _ {sm : Smithay} (env : Env sm) where
  -- The shared state after a fullscreen window has left fullscreen.
  abbrev pub left : World sm → Window → World sm
  left d w =
      emit
        (set_pending d w
          (record { states = sm.unset_state (d.pending w).states fullscreen; size = none }))
        (send (RuntimeMessage.unfullscreen_request w))

  -- With a live channel to the runtime, leaving fullscreen succeeds and takes out every entry of
  -- the window, and nothing else of the workspace.
  pub unfullscreen_request-without :
      (ws : Workspace sm) (d : World sm) (w : Window)
      → env.runtime_open ≡ true
      → (d' : World sm) × (unfullscreen_request env ws d w
          ≡ ok (record ws { fullscreen = without w ws.fullscreen }, d'))
  unfolding unfullscreen_request send_message
  unfullscreen_request-without ws d w run = elim (Bool-cases (is_fullscreen ws.fullscreen w)) [
    | inl e ↦ (left d w, ground arith)
    | inr e ↦ (d, ground (arith, without_absent w ws.fullscreen e))
  ]

  entered : Workspace sm → World sm → Window → Output → Workspace sm × World sm
  entered ws d w o = (
    record ws { fullscreen = insert (env.output_name o) w ws.fullscreen },
    set_pending d w (record {
      states = sm.set_state (d.pending w).states fullscreen;
      size = some (output_size env o);
    }),
  )

  fullscreen_request_free :
      (ws : Workspace sm) (d : World sm) (w : Window) (o : Output)
      → lookup (env.output_name o) ws.fullscreen ≡ none
      → fullscreen_request env ws d w o ≡ entered ws d w o
  unfolding fullscreen_request entered
  fullscreen_request_free ws d w o h = rw (h, fullscreen_request)

  -- A window that is fullscreen nowhere enters fullscreen on a free output and leaves it again:
  -- in between it is asked to be fullscreen at the output's size; afterwards the workspace is as
  -- before, the window is asked to be not fullscreen at a size of its own, other windows' pending
  -- states are as before, and the last call that went out is the message to the runtime.
  pub fullscreen_request-unfullscreen_request :
      (ws : Workspace sm) (d : World sm) (w : Window) (o : Output)
      → env.runtime_open ≡ true
      → lookup (env.output_name o) ws.fullscreen ≡ none
      → is_fullscreen ws.fullscreen w ≡ false
      → let (ws', d') = fullscreen_request env ws d w o in
        (is_fullscreen ws'.fullscreen w ≡ true)
        × (sm.contains_state (d'.pending w).states fullscreen ≡ true)
        × ((d'.pending w).size ≡ some (output_size env o))
        × (unfullscreen_request env ws' d' w ≡ ok (ws, left d' w))
        × (sm.contains_state ((left d' w).pending w).states fullscreen ≡ false)
        × (((left d' w).pending w).size ≡ none)
        × ((v : Window) → v ≢ w → (left d' w).pending v ≡ d.pending v)
  unfolding entered unfullscreen_request send_message
  fullscreen_request-unfullscreen_request ws d w o run free off =
      let n = env.output_name o in
      rw (fullscreen_request_free ws d w o free) (
        is_fullscreen-insert n w ws.fullscreen,
        ground (arith, sm.contains-set_state (d.pending w).states fullscreen fullscreen),
        ground arith,
        ground (
          arith,
          is_fullscreen-insert n w ws.fullscreen,
          without-insert n w ws.fullscreen free off,
        ),
        ground (
          arith,
          sm.contains-unset_state (sm.set_state (d.pending w).states fullscreen) fullscreen
              fullscreen,
        ),
        ground arith,
        λ v ne. ground arith,
      )

  -- A fullscreen request on a free output changes what is shown there, and on no output of another
  -- name; on an output that is taken the request changes nothing at all.
  pub get_fullscreen-fullscreen_request :
      (ws : Workspace sm) (d : World sm) (w : Window) (o q : Output)
      → let (ws', d') = fullscreen_request env ws d w o in
        ((lookup (env.output_name o) ws.fullscreen ≡ none)
          × (get_fullscreen env ws' q ≡ (
              if str_eq (env.output_name o) (env.output_name q)
              then (if has (sm.space_outputs ws.space) q && env.alive w then some w else none)
              else get_fullscreen env ws q)))
        ⊎ ((v : Window) × (lookup (env.output_name o) ws.fullscreen ≡ some v)
            × (ws' ≡ ws)
            × (d' ≡ d))
  unfolding fullscreen_request get_fullscreen
  get_fullscreen-fullscreen_request ws d w o q =
      elim (Option-cases (lookup (env.output_name o) ws.fullscreen)) [
        | inl free ↦ inl (
          free,
          ground
              (arith, free, lookup-insert (env.output_name o) (env.output_name q) w ws.fullscreen),
        )
        | inr (v, taken) ↦ inr (v, taken, ground arith, ground arith)
      ]
