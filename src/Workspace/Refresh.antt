-- ===== src/Workspace/Refresh.antt =====
-- src/shell/workspace.rs: `refresh` drops the fullscreen windows that are dead or whose output is
-- gone.
use electrum.Prelude.{
  ◌==◌, Bool-cases, any, retain, ok, String, ◌≡◌, refl, sym, ap, inl, inr, Bool, true, not, ◌&&◌,
  List, [], ◌∷◌, map, arith, str_eq,
}
use electrum.Smithay.{Window, Output, has, Smithay}
use electrum.World.{World, Env}
use electrum.Workspace.{Workspace, without, unfullscreen_all, is_connected, dead_windows, refresh}
use electrum.Workspace.Fullscreen.{unfullscreen_request-without}

-- The entries of the windows that are not listed.
abbrev keep : List Window → List (String × Window) → List (String × Window)
keep dead = retain (λ e. not (has dead e.1))

retain-retain {ℓ} :
    {A : Type ℓ} (p q r : A → Bool)
    → ((x : A) → r x ≡ (p x && q x))
    → (l : List A) → retain p (retain q l) ≡ retain r l
unfolding retain
retain-retain p q r h [] = refl
retain-retain p q r h (x ∷ l) = ground (arith, h x, retain-retain p q r h l)

keep-nil : (m : List (String × Window)) → keep [] m ≡ m
unfolding retain any
keep-nil [] = refl
keep-nil (e ∷ m) = rw (keep-nil m)

keep-without :
    (w : Window) (dead : List Window) (m : List (String × Window))
    → keep dead (without w m) ≡ keep (w ∷ dead) m
unfolding retain any
keep-without w dead [] = refl
keep-without w dead (e ∷ m) = ground (arith, keep-without w dead m)

module _ {sm : Smithay} (env : Env sm) where
  unfullscreen_all-keep :
      (dead : List Window) (ws : Workspace sm) (d : World sm)
      → env.runtime_open ≡ true
      → (d' : World sm) × (unfullscreen_all env dead ws d
          ≡ ok (record ws { fullscreen = keep dead ws.fullscreen }, d'))
  unfolding unfullscreen_all
  unfullscreen_all-keep [] ws d run = (d, rw (keep-nil ws.fullscreen))
  unfullscreen_all-keep (w ∷ dead) ws d run =
      let (d', e) = unfullscreen_request-without env ws d w run in
      let (d'', e') =
        unfullscreen_all-keep dead (record ws { fullscreen = without w ws.fullscreen }) d' run in
      (d'', ground (arith, e, e', keep-without w dead ws.fullscreen))

  -- No output of the space has the name.
  abbrev pub is_gone : List Output → String → Bool
  is_gone outputs name = not (any (λ n. str_eq n name) (map env.output_name outputs))

  -- The window is fullscreen on some output that is gone.
  abbrev pub is_stranded : List Output → List (String × Window) → Window → Bool
  is_stranded outputs m w = any (λ e. e.1 == w && is_gone outputs e.0) m

  pub is_connected-is_gone :
      (outputs : List Output) (name : String)
      → not (is_connected env outputs name) ≡ is_gone outputs name
  unfolding is_connected any
  is_connected-is_gone [] name = refl
  is_connected-is_gone (o ∷ outputs) name = elim (Bool-cases (str_eq (env.output_name o) name)) [
    | inl e ↦ rw (e) refl
    | inr e ↦ rw (e) (is_connected-is_gone outputs name)
  ]

  dead_windows-is_stranded :
      (outputs : List Output) (m : List (String × Window)) (w : Window)
      → has (dead_windows env outputs m) w ≡ is_stranded outputs m w
  unfolding dead_windows retain any
  dead_windows-is_stranded outputs [] w = refl
  dead_windows-is_stranded outputs (e ∷ m) w =
      ground (arith, is_connected-is_gone outputs e.0, dead_windows-is_stranded outputs m w)

  -- With a live channel to the runtime a refresh succeeds. Of the fullscreen windows it keeps exactly
  -- those that are alive and not fullscreen on an output that the space no longer has, with all their
  -- entries.
  pub refresh-keep :
      (ws : Workspace sm) (d : World sm)
      → env.runtime_open ≡ true
      → let stranded = is_stranded (sm.space_outputs ws.space) ws.fullscreen in
        (d' : World sm) × (refresh env ws d
          ≡ ok (
            record ws {
              fullscreen = retain (λ e. env.alive e.1 && not (stranded e.1)) ws.fullscreen;
              space = sm.refresh_space ws.space;
            },
            d',
          ))
  unfolding refresh
  refresh-keep ws d run =
      let outputs = sm.space_outputs ws.space in
      let dead = dead_windows env outputs ws.fullscreen in
      let (d', e) = unfullscreen_all-keep dead ws d run in
      let same =
        retain-retain (λ x. env.alive x.1) (λ x. not (has dead x.1))
          (λ x. env.alive x.1 && not (is_stranded outputs ws.fullscreen x.1))
          (λ x.
            ap (λ b. env.alive x.1 && not b)
              (sym (dead_windows-is_stranded outputs ws.fullscreen x.1)))
          ws.fullscreen in
      (
        d',
        rw e (
            ap (λ m. ok (record ws { fullscreen = m; space = sm.refresh_space ws.space }, d'))
              same),
      )
