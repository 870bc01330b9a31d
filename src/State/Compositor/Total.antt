-- ===== src/State/Compositor/Total.antt =====
-- src/state/compositor.rs: a commit of any surface always runs through.
use electrum.Prelude.{
  ◌==◌, ==-refl, Bool-cases, Option-cases, find, ok, Returns, ◌≡◌, refl, ap, ◌∙◌, inl, inr, Bool,
  true, false, ◌&&◌, none, some, List, [], ◌∷◌, arith,
}
use electrum.Prelude.Int.{pos}
use electrum.Smithay.{Window, WlSurface, LayerSurface, Output, Seat, Popup, Smithay}
use electrum.World.{load_buffer, configure_popup, map_layer_surface, World, Env, emit, set_pending}
use electrum.Workspace.{Workspace}
use electrum.State.Output.{active_output}
use electrum.Shell.{Shell, active_workspace, set_workspace}
use electrum.Shell.Common.Activation.{active_workspace-set_workspace}
use electrum.Shell.SetFocus.Slots.{unfocused, SameSlots, set_focus-SameSlots}
use electrum.Shell.Mapping.{take_first, is_front, map_pending_window, map_layer}
use electrum.State.Compositor.{
  toplevel_ensure_initial_configure, layer_surface_ensure_inital_configure,
  xdg_popup_ensure_initial_configure, finalise, commit_window, commit_layer, commit_popup, commit,
}
use electrum.State.Compositor.Commit.{finalise-seats}

-- What `find` finds is there to be taken.
take_first-find {ℓ} :
    {A : Type ℓ} (p q : A → Bool) (l : List A) (x : A)
    → find p l ≡ some x
    → q x ≡ true
    → (r : A × List A) × (take_first q l ≡ some r)
unfolding take_first find
take_first-find p q [] x found holds = ground arith
take_first-find p q (y ∷ l) x found holds = elim (Bool-cases (q y)) [
  | inl e ↦ ((y, l), rw e refl)
  | inr e ↦ elim (Bool-cases (p y)) [
    | inl f ↦ ground arith
    | inr f ↦
        let ((z, rest), taken) = take_first-find p q l x (rw f at found) holds in
        ((z, y ∷ rest), rw (e, taken) refl)
  ]
]

module _ {sm : Smithay} (env : Env sm) where
  -- What a handler leaves of the shell and of the seats.
  abbrev pub Holds : Shell sm → World sm → Shell sm × World sm → Type 0
  Holds sh d r =
      ((ws : Workspace sm) × (active_workspace r.0.workspaces ≡ ok ws))
      × (r.0.outputs ≡ sh.outputs)
      × SameSlots d r.1

  pub active_output_total :
      (sh : Shell sm) (d : World sm) (seat : Seat) (o : Output)
      → sh.outputs ≡ o ∷ []
      → (found : Output) × (active_output env sh d seat ≡ ok found)
  unfolding active_output
  active_output_total sh d seat o outs = elim (Option-cases (d.seat_data seat).active_output) [
    | inl e ↦ (o, rw (active_output, e) (rw outs refl))
    | inr (p, e) ↦ (p, rw (active_output, e) refl)
  ]

  map_pending_window-Holds :
      (sh : Shell sm) (ws : Workspace sm) (d : World sm) (p : Window × Seat → Bool)
      (found : Window × Seat)
      → active_workspace sh.workspaces ≡ ok ws
      → find p sh.pending_windows ≡ some found
      → Returns (Holds sh d) (map_pending_window env sh d found.0)
  unfolding map_pending_window
  map_pending_window-Holds sh ws d p found first e =
      let (((w, seat), pending), taken) =
        take_first-find p (λ x. x.0 == found.0) sh.pending_windows found e (==-refl found.0) in
      let ws' = record ws {
        space = sm.map_window ws.space w (record { x = pos 0; y = pos 0 }) 0 false;
      } in
      let sh' = record sh {
        pending_windows = pending;
        workspaces = set_workspace sh.workspaces 0 ws';
      } in
      let (d', focuses, same) = set_focus-SameSlots env sh' d (some (env.wl_surface w)) seat none in
      (
        (sh', d'),
        rw (map_pending_window, taken) (rw first (rw focuses refl)),
        ((ws', active_workspace-set_workspace env sh.workspaces ws ws' first), refl, same),
      )

  map_layer-Holds :
      (sh : Shell sm) (ws : Workspace sm) (d : World sm) (p : LayerSurface × Output × Seat → Bool)
      (found : LayerSurface × Output × Seat)
      → ((l : LayerSurface) (o : Output) → env.maps_layer o l ≡ true)
      → active_workspace sh.workspaces ≡ ok ws
      → find p sh.pending_layers ≡ some found
      → Returns (Holds sh d) (map_layer env sh d found.0)
  unfolding map_layer
  map_layer-Holds sh ws d p found maps first e =
      let (((l, o, seat), pending), taken) =
        take_first-find p (λ x. x.0 == found.0) sh.pending_layers found e (==-refl found.0) in
      let sh' = record sh { pending_layers = pending } in
      let d1 = emit d (map_layer_surface o l) in
      let (d', focuses, same) =
        set_focus-SameSlots env sh' d1 (some (env.layer_wl_surface l)) seat none in
      elim (Bool-cases (is_front (env.cached_layer l) && env.wants_keyboard l)) [
        | inl f ↦ (
          (sh', d'),
          rw (map_layer, taken) (rw (maps l o) (rw f (rw focuses refl))),
          ((ws, first), refl, same),
        )
        | inr f ↦ (
          (sh', d1),
          rw (map_layer, taken) (rw (maps l o) (rw f refl)),
          ((ws, first), refl, λ q. refl),
        )
      ]

  commit_window-Holds :
      (sh : Shell sm) (ws : Workspace sm) (d : World sm) (surface : WlSurface) (o : Output)
      → active_workspace sh.workspaces ≡ ok ws
      → sh.outputs ≡ o ∷ []
      → Returns (λ r. Holds sh d (r.1, r.2)) (commit_window env sh d surface)
  unfolding commit_window toplevel_ensure_initial_configure
  commit_window-Holds sh ws d surface o first outs =
      let p : Window × Seat → Bool = λ e. env.wl_surface e.0 == surface in
      elim (Option-cases (find p sh.pending_windows)) [
        | inl e ↦ ((true, sh, d), rw (commit_window, e) refl, ((ws, first), refl, λ q. refl))
        | inr ((w, seat), e) ↦ elim (Bool-cases (env.initial_configure_sent (env.wl_surface w))) [
          | inr f ↦ (
            (false, sh, set_pending d w (record (d.pending w) { size = none })),
            rw (commit_window, e, f) refl,
            ((ws, first), refl, λ q. refl),
          )
          | inl f ↦ elim (Bool-cases (env.has_buffer surface)) [
            | inr g ↦
                ((false, sh, d), rw (commit_window, e, f, g) refl, ((ws, first), refl, λ q. refl))
            | inl g ↦
                let (found, active) = active_output_total sh d seat o outs in
                let ((sh', d'), maps, holds) =
                  map_pending_window-Holds sh ws d p (w, seat) first e in
                ((true, sh', d'), rw (commit_window, e, f, g) (rw active (rw maps refl)), holds)
          ]
        ]
      ]

  -- What a commit relies on: layer surfaces can be mapped and popups can be configured.
  pub record Commits : Type 0 where
    pub maps : (l : LayerSurface) (o : Output) → env.maps_layer o l ≡ true
    pub configures : (popup : Popup) → env.popup_configures popup ≡ true

  commit_layer-Holds :
      (sh : Shell sm) (ws : Workspace sm) (d : World sm) (surface : WlSurface)
      → Commits
      → active_workspace sh.workspaces ≡ ok ws
      → Returns (λ r. Holds sh d (r.1, r.2)) (commit_layer env sh d surface)
  unfolding commit_layer layer_surface_ensure_inital_configure
  commit_layer-Holds sh ws d surface h first =
      let p : LayerSurface × Output × Seat → Bool = λ e. env.layer_wl_surface e.0 == surface in
      elim (Option-cases (find p sh.pending_layers)) [
        | inl e ↦ ((true, sh, d), rw (commit_layer, e) refl, ((ws, first), refl, λ q. refl))
        | inr ((l, o, seat), e) ↦
            elim (Bool-cases (env.initial_configure_sent (env.layer_wl_surface l))) [
              | inl f ↦
                  ((true, sh, d), rw (commit_layer, e) (rw f refl), ((ws, first), refl, λ q. refl))
              | inr f ↦
                  let ((sh', d'), maps, holds) =
                    map_layer-Holds sh ws d p (l, o, seat) h.maps first e in
                  ((false, sh', d'), rw (commit_layer, e) (rw f (rw maps refl)), holds)
            ]
      ]

  commit_popup_total :
      (d : World sm) (surface : WlSurface)
      → Commits
      → Returns (λ d'. SameSlots d d') (commit_popup env d surface)
  unfolding commit_popup xdg_popup_ensure_initial_configure
  commit_popup_total d surface h = elim (Option-cases (env.find_popup surface)) [
    | inl e ↦ (d, rw (commit_popup, e) refl, λ q. refl)
    | inr (popup, e) ↦ elim (Bool-cases (env.popup_configure_sent popup)) [
      | inl f ↦ (d, rw (commit_popup, e) (rw f refl), λ q. refl)
      | inr f ↦ (
        emit d (configure_popup popup),
        rw (commit_popup, e) (rw (f, h.configures popup) refl),
        λ q. refl,
      )
    ]
  ]

  pub commit-Holds :
      (sh : Shell sm) (ws : Workspace sm) (d : World sm) (surface : WlSurface) (o : Output)
      → Commits
      → active_workspace sh.workspaces ≡ ok ws
      → sh.outputs ≡ o ∷ []
      → Returns (Holds sh d) (commit env sh d surface)
  unfolding commit
  commit-Holds sh ws d surface o h first outs =
      let ((on1, sh1, d1), commits1, ((ws1, first1), outs1, same1)) =
        commit_window-Holds sh ws (emit d (load_buffer surface)) surface o first outs in
      let ((on2, sh2, d2), commits2, (there2, outs2, same2)) =
        commit_layer-Holds sh1 ws1 d1 surface h first1 in
      let (d3, commits3, same3) = commit_popup_total d2 surface h in
      elim (Bool-cases on1) [
        | inr e ↦ ((sh1, d1), rw commits1 (rw e refl), ((ws1, first1), outs1, same1))
        | inl e ↦ elim (Bool-cases on2) [
          | inr f ↦ (
            (sh2, d2),
            rw commits1 (rw (e, commits2) (rw f refl)),
            (there2, outs2 ∙ outs1, λ q. same2 q ∙ same1 q),
          )
          | inl f ↦ (
            (sh2, finalise env sh2 d3 surface),
            rw commits1 (rw (e, commits2) (rw (f, commits3) refl)),
            (
              there2,
              outs2 ∙ outs1,
              λ q.
                  ap (λ g. unfocused (g q)) (finalise-seats env sh2 d3 surface)
                  ∙ same3 q
                  ∙ same2 q
                  ∙ same1 q,
            ),
          )
        ]
      ]
