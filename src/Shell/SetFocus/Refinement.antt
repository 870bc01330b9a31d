-- ===== src/Shell/SetFocus/Refinement.antt =====
-- `Shell::set_focus` of src/shell/focus.rs: histories of calls implement lists of live windows.
use electrum.Prelude.{
  Bool-cases, Option-cases, Outcome, ok, ◌>>=◌, Returns, ℕ, ◌≡◌, refl, sym, ap, ◌∙◌, subst, inl,
  inr, Option, none, some, List, [], ◌∷◌,
}
use electrum.Smithay.{Window, WlSurface, Seat, Serial, all, Smithay}
use electrum.World.{World, Env}
use electrum.Workspace.{Workspace}
use electrum.Focus.Data.{stack_at, top, set_active_focus-eq}
use electrum.Focus.Recent.{front, Distinct, recent, last-recent}
use electrum.Shell.{Shell, space_for_window, focus_window, set_focus}
use electrum.Shell.SetFocus.{pushed, push_focus-eq, focused, stack_at-focused}
use electrum.Shell.SetFocus.Recent.{
  View, view, touch_at, focus_view, IsTidy, pushed-SameFallback, focused-SameFallback,
  pushed-touch_at, touch_at-Distinct,
}

module _ {sm : Smithay} (env : Env sm) where
  -- What one call leaves: the view that the specification has, and tidy stacks.
  abbrev Refines : World sm → View → Type 0
  Refines d v = ((q : Seat) (j : ℕ) → view env d q j ≡ v q j) × IsTidy env d

  pushed-Refines :
      (ws : Workspace sm) (d : World sm) (w : Window) (seat : Seat)
      → IsTidy env d
      → Refines (pushed env ws d w seat) (touch_at env (view env d) seat ws.idx w)
  pushed-Refines ws d w seat tidy = (
    λ q j. pushed-touch_at env ws d w seat q j tidy,
    record {
      empty = λ q. ap (recent env) (pushed-SameFallback env ws d w seat q) ∙ tidy.empty q;
      distinct = λ q j.
          subst Distinct (sym (pushed-touch_at env ws d w seat q j tidy))
            (touch_at-Distinct env (view env d) seat ws.idx w tidy.distinct q j);
    },
  )

  focus_window-Refines :
      (sh : Shell sm) (d : World sm) (surface : WlSurface) (seat : Seat)
      → IsTidy env d
      → Returns
          (λ d'. Refines d' (focus_view env sh (view env d) seat surface))
          (focus_window env sh d (some surface) seat)
  unfolding focus_window
  focus_window-Refines sh d surface seat tidy =
      elim (Option-cases (space_for_window env sh.workspaces surface)) [
        | inl e ↦ (d, rw (focus_window, e) refl, (λ q j. rw (focus_view, e) refl, tidy))
        | inr (ws, e) ↦ elim (Option-cases (sm.window_for_surface ws.space surface all)) [
          | inl f ↦ (d, rw (focus_window, e, f) refl, (λ q j. rw (focus_view, e, f) refl, tidy))
          | inr (w, f) ↦
              let (views, tidy') = pushed-Refines ws d w seat tidy in
              (
                pushed env ws d w seat,
                rw (focus_window, e, f) (push_focus-eq env ws d w seat),
                (λ q j. rw (focus_view, e, f) (views q j), tidy'),
              )
        ]
      ]

  focused-Refines :
      (d : World sm) (v : View) (surface : Option WlSurface) (seat : Seat) (serial : Option Serial)
      → Refines d v
      → Refines (focused env d surface seat serial) v
  focused-Refines d v surface seat serial (views, tidy) =
      let same =
        λ (q : Seat) (j : ℕ). ap (recent env) (stack_at-focused env d surface seat q serial j) in
      (
        λ q j. same q j ∙ views q j,
        record {
          empty = λ q.
              ap (recent env) (focused-SameFallback env d surface seat serial q) ∙ tidy.empty q;
          distinct = λ q j. subst Distinct (sym (same q j)) (tidy.distinct q j);
        },
      )

  set_focus-Refines :
      (sh : Shell sm) (d : World sm) (surface : WlSurface) (seat : Seat) (serial : Option Serial)
      → IsTidy env d
      → Returns
          (λ d'. Refines d' (focus_view env sh (view env d) seat surface))
          (set_focus env sh d (some surface) seat serial)
  unfolding set_focus
  set_focus-Refines sh d surface seat serial tidy =
      let (d1, runs, refines) = focus_window-Refines sh d surface seat tidy in
      elim (Bool-cases (env.has_keyboard seat)) [
        | inl kb ↦ (
          focused env d1 (some surface) seat serial,
          rw (set_focus, runs, kb) (rw (set_active_focus-eq d1 seat (some surface)) refl),
          focused-Refines d1 (focus_view env sh (view env d) seat surface) (some surface) seat
              serial refines,
        )
        | inr kb ↦ (d1, rw (set_focus, runs, kb) refl, refines)
      ]

  -- A history of calls of `set_focus`, and the same on lists.
  pub focus_all : Shell sm → World sm → List (Seat × WlSurface) → Outcome (World sm)
  focus_all sh d [] = ok d
  focus_all sh d ((seat, surface) ∷ calls) = do
    d' ← set_focus env sh d (some surface) seat none
    focus_all sh d' calls

  abbrev pub focus_views : Shell sm → View → List (Seat × WlSurface) → View
  focus_views sh v [] = v
  focus_views sh v ((seat, surface) ∷ calls) =
      focus_views sh (focus_view env sh v seat surface) calls

  focus_views_cong :
      (sh : Shell sm) (u v : View) (calls : List (Seat × WlSurface))
      → u ≡ v
      → focus_views sh u calls ≡ focus_views sh v calls
  focus_views_cong sh u v calls = ap (λ x. focus_views sh x calls)

  -- Whatever is focused, on whichever seats, the stacks implement the specification on lists: each
  -- call moves the window of its surface to the front of one list, a window that has died leaves
  -- that list, and nothing else moves. The window that a stack calls focused is the front of its
  -- list, and no window is ever in a list twice.
  pub focus_all-focus_views :
      (sh : Shell sm) (d : World sm) (calls : List (Seat × WlSurface))
      → IsTidy env d
      → Returns
          (λ d'.
            ((q : Seat) (j : ℕ)
              → (view env d' q j ≡ focus_views sh (view env d) calls q j)
                × (top env d' q j ≡ front (focus_views sh (view env d) calls q j)))
            × IsTidy env d')
          (focus_all sh d calls)
  unfolding focus_all
  focus_all-focus_views sh d [] tidy =
      (d, refl, (λ q j. (refl, last-recent env (stack_at d q j)), tidy))
  focus_all-focus_views sh d ((seat, surface) ∷ calls) tidy =
      let (d1, sets, (views, tidy1)) = set_focus-Refines sh d surface seat none tidy in
      let (d2, goes_on, (views2, tidy2)) = focus_all-focus_views sh d1 calls tidy1 in
      let spec = focus_view env sh (view env d) seat surface in
      let same : view env d1 ≡ spec = λ i q j. views q j i in
      let later = focus_views_cong sh (view env d1) spec calls same in
      (
        d2,
        rw sets goes_on,
        (
          λ q j. (
            (views2 q j).0 ∙ ap (λ v. v q j) later,
            (views2 q j).1 ∙ ap (λ v. front (v q j)) later,
          ),
          tidy2,
        ),
      )
