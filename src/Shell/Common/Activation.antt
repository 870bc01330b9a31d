-- ===== src/Shell/Common/Activation.antt =====
-- src/shell/focus.rs: `update_active` tells each window of the active workspace whether it has the
-- focus of some seat.
use mathlib.Core.Path.{ap₂}
use electrum.Prelude.{
  ◌==◌, if◌then◌else◌, any, ok, ℕ, ◌≡◌, refl, ap, ◌∙◌, Bool, true, false, ◌||◌, Option, none, some,
  List, [], ◌∷◌, ◌++◌, arith,
}
use electrum.Smithay.{Window, Output, Seat, has, Smithay}
use electrum.World.{Effect, configure, World, Env, emit}
use electrum.Workspace.{Workspace}
use electrum.Focus.{last}
use electrum.Focus.Data.{stack_at, top, focus_stack-eq, touched, stack_at-touched}
use electrum.Shell.{Shell, is_last, active_workspace, set_workspace}
use electrum.Shell.Common.{
  option_to_list, focused_of_seat, focused_windows, raise_all, configure_all, activate,
  update_active,
}

has-append : (xs ys : List Window) (w : Window) → has (xs ++ ys) w ≡ has xs w || has ys w
unfolding any
has-append [] ys w = refl
has-append (x ∷ xs) ys w = ground (arith, has-append xs ys w)

has-option_to_list : (o : Option Window) (w : Window) → has (option_to_list o) w ≡ is_last w o
unfolding any
has-option_to_list none w = refl
has-option_to_list (some v) w = ground arith

has-nil : (w : Window) → has [] w ≡ false
unfolding any
has-nil w = refl

-- A loop that adds the same answer for each output.
or_same : (os : List Output) (b c : Bool) → c ≡ (elim os [ [] ↦ false | _ ∷ _ ↦ b ]) → b || c ≡ b
or_same [] b c e = ground arith
or_same (_ ∷ os) b c e = ground arith

for_outputs :
    (l os : List Output) (o : Output) (a x : Option Bool)
    → l ≡ o ∷ os
    → (elim l [ [] ↦ a | _ ∷ _ ↦ x ]) ≡ x
for_outputs l os o a x e = ap (λ m. elim m [ [] ↦ a | _ ∷ _ ↦ x ]) e

-- A second round tells a window the same once more.
told_again :
    (os : List Output) (b c : Bool) (x t1 t0 : Option Bool)
    → b ≡ c
    → t1 ≡ (if b then x else t0)
    → (elim os [ [] ↦ t1 | _ ∷ _ ↦ if b then x else t1 ]) ≡ (if c then x else t0)
told_again [] b c x t1 t0 e f = ground arith
told_again (_ ∷ os) b c x t1 t0 e f = ground arith

module _ {sm : Smithay} (env : Env sm) where
  -- What a window was told last: whether it is activated.
  pub told_active : List (Effect sm) → Window → Option Bool
  told_active [] w = none
  told_active (configure v active ∷ es) w = if v == w then some active else told_active es w
  told_active (_ ∷ es) w = told_active es w

  -- Some seat has the window on top of its stack of the workspace.
  pub has_focus : World sm → ℕ → List Seat → Window → Bool
  has_focus d idx seats w = any (λ seat. is_last w (top env d seat idx)) seats

  configure_all-told :
      (focused ws : List Window) (d : World sm) (w : Window)
      → told_active (configure_all env focused ws d).effects w
        ≡ (if has ws w then some (has focused w) else told_active d.effects w)
  unfolding configure_all any told_active
  configure_all-told focused [] d w = refl
  configure_all-told focused (v ∷ ws) d w =
      ground (arith, configure_all-told focused ws (emit d (configure v (has focused v))) w)

  windows-raise_all :
      (ws : List Window) (s : sm.Space) (w : Window)
      → has (sm.windows (raise_all env ws s)) w ≡ has (sm.windows s) w
  unfolding raise_all
  windows-raise_all [] s w = refl
  windows-raise_all (v ∷ ws) s w =
      windows-raise_all ws (sm.raise_window s v true) w ∙ sm.windows-raise_window s v true w

  -- Two states with the same stacks.
  abbrev SameStacks : World sm → World sm → Type 0
  SameStacks d d' = (seat : Seat) (j : ℕ) → stack_at d' seat j ≡ stack_at d seat j

  module _ (sh : Shell sm) (ws : Workspace sm)
      (first : active_workspace sh.workspaces ≡ ok ws) where
    focused_of_seat-eq :
        (os : List Output) (d : World sm) (seat : Seat)
        → (d' : World sm) × (fs : List Window) × (focused_of_seat env sh os d seat ≡ ok (d', fs))
          × SameStacks d d'
          × ((w : Window)
              → has fs w ≡ (elim os [ [] ↦ false | _ ∷ _ ↦ is_last w (top env d seat ws.idx) ]))
          × (d'.effects ≡ d.effects)
    unfolding focused_of_seat
    focused_of_seat-eq [] d seat = (d, [], refl, λ q j. refl, λ w. has-nil w, refl)
    focused_of_seat-eq (o ∷ os) d seat =
        let (d', fs, e, same, spec, quiet) = focused_of_seat-eq os (touched d seat) seat in
        (
          d',
          option_to_list (top env d seat ws.idx) ++ fs,
          rw first (rw (focus_stack-eq ws.idx d seat) (rw e)),
          λ q j. same q j ∙ stack_at-touched d seat q j,
          λ w.
              has-append (option_to_list (top env d seat ws.idx)) fs w
              ∙ (ap (λ b. b || has fs w) (has-option_to_list (top env d seat ws.idx) w)
                  ∙ or_same os (is_last w (top env d seat ws.idx)) (has fs w) (
                      spec w
                      ∙ ap (λ b. elim os [ [] ↦ false | _ ∷ _ ↦ b ])
                          (ap (λ s. is_last w (last env s))
                            (stack_at-touched d seat seat ws.idx)))),
          quiet,
        )

    has_focus-same :
        (d d' : World sm) (idx : ℕ) (seats : List Seat) (w : Window)
        → SameStacks d d'
        → has_focus d' idx seats w ≡ has_focus d idx seats w
    unfolding has_focus any
    has_focus-same d d' idx [] w same = refl
    has_focus-same d d' idx (seat ∷ seats) w same =
        ap₂ (λ s b. is_last w (last env s) || b) (same seat idx)
          (has_focus-same d d' idx seats w same)

    focused_windows-eq :
        (o : Output) (os : List Output) (seats : List Seat) (d : World sm)
        → sh.outputs ≡ o ∷ os
        → (d' : World sm) × (fs : List Window) × (focused_windows env sh d seats ≡ ok (d', fs))
          × ((w : Window) → has fs w ≡ has_focus d ws.idx seats w)
          × (d'.effects ≡ d.effects)
    unfolding focused_windows has_focus any
    focused_windows-eq o os [] d some_output = (d, [], refl, λ w. refl, refl)
    focused_windows-eq o os (seat ∷ seats) d some_output =
        let (d1, fs, e, same, spec, quiet) = focused_of_seat-eq sh.outputs d seat in
        let (d2, more, e', spec', quiet') = focused_windows-eq o os seats d1 some_output in
        (
          d2,
          fs ++ more,
          rw e (rw e'),
          λ w.
              has-append fs more w
              ∙ ap₂ (λ b c. b || c)
                  (spec w
                    ∙ ap (λ l. elim l [ [] ↦ false | _ ∷ _ ↦ is_last w (top env d seat ws.idx) ])
                        some_output)
                  (spec' w ∙ has_focus-same d d1 ws.idx seats w same),
          quiet' ∙ quiet,
        )

  pub active_workspace-set_workspace :
      (l : List (Workspace sm)) (ws ws1 : Workspace sm)
      → active_workspace l ≡ ok ws
      → active_workspace (set_workspace l 0 ws1) ≡ ok ws1
  unfolding set_workspace
  active_workspace-set_workspace [] ws ws1 first = absurd (ground arith)
  active_workspace-set_workspace (_ ∷ l) ws ws1 first = refl

  -- The loop over the outputs: the windows of the space stay the same, and each is told anew.
  activate-told :
      (os : List Output) (focused : List Window) (sh : Shell sm) (ws : Workspace sm) (d : World sm)
      → active_workspace sh.workspaces ≡ ok ws
      → (sh' : Shell sm) × (d' : World sm) × (activate env os focused sh d ≡ ok (sh', d'))
        × ((w : Window)
            → told_active d'.effects w ≡ (elim os [
              | [] ↦ told_active d.effects w
              | _ ∷ _ ↦
                  if has (sm.windows ws.space) w
                  then some (has focused w)
                  else told_active d.effects w
            ]))
  unfolding activate
  activate-told [] focused sh ws d first = (sh, d, refl, λ w. refl)
  activate-told (o ∷ os) focused sh ws d first =
      let space = raise_all env focused ws.space in
      let ws1 = record ws { space = space } in
      let sh1 = record sh { workspaces = set_workspace sh.workspaces 0 ws1 } in
      let d1 = configure_all env focused (sm.windows space) d in
      let (sh', d', e, told) =
        activate-told os focused sh1 ws1 d1
          (active_workspace-set_workspace sh.workspaces ws ws1 first) in
      (
        sh',
        d',
        rw first e,
        λ w.
            told w
            ∙ told_again os (has (sm.windows space) w) (has (sm.windows ws.space) w)
                (some (has focused w)) (told_active d1.effects w) (told_active d.effects w)
                (windows-raise_all focused ws.space w)
                (configure_all-told focused (sm.windows space) d w),
      )

  -- With at least one output, and a workspace, an update tells each window of the active workspace
  -- whether some seat has it on top of its stack of that workspace: that is the last thing that it
  -- is told of its activation. A window that is not in the workspace is told nothing.
  pub update_active-told :
      (sh : Shell sm) (ws : Workspace sm) (o : Output) (os : List Output) (d : World sm)
      (seats : List Seat)
      → active_workspace sh.workspaces ≡ ok ws
      → sh.outputs ≡ o ∷ os
      → (sh' : Shell sm) × (d' : World sm) × (update_active env sh d seats ≡ ok (sh', d'))
        × ((w : Window)
            → told_active d'.effects w ≡ (
                if has (sm.windows ws.space) w
                then some (has_focus d ws.idx seats w)
                else told_active d.effects w))
  unfolding update_active
  update_active-told sh ws o os d seats first some_output =
      let (d1, fs, e, spec, quiet) = focused_windows-eq sh ws first o os seats d some_output in
      let (sh', d', e', told) = activate-told sh.outputs fs sh ws d1 first in
      (
        sh',
        d',
        rw e e',
        λ w.
            told w
            ∙ (for_outputs sh.outputs os o (told_active d1.effects w)
                  (if has (sm.windows ws.space) w
                    then some (has fs w)
                    else told_active d1.effects w)
                  some_output
                ∙ ap₂ (λ b es. if has (sm.windows ws.space) w then some b else told_active es w)
                    (spec w) quiet),
      )
