-- ===== src/Shell/SetFocus/Recent.antt =====
-- src/shell/focus.rs and `Shell::set_focus`: the focus stacks of all seats implement lists of live
-- windows in the order in which they were focused.
use electrum.Prelude.{
  ◌==◌, if◌then◌else◌, Bool-cases, Option-cases, retain, unwrap_or, ℕ, ◌≡◌, refl, sym, ap, ◌∙◌,
  subst, inl, inr, ◌&&◌, Option, none, some, List, [], arith,
}
use electrum.Smithay.{Window, WlSurface, Seat, Serial, all, Smithay}
use electrum.World.{SeatData, World, Env}
use electrum.Workspace.{Workspace}
use electrum.Focus.{last, append, no_stacks, remove_popup_grab}
use electrum.Focus.Data.{stacks_of, stack_at, entry_of, with_stack, remove_popup_grab-focus}
use electrum.Focus.Recent.{Distinct, recent, touch, Distinct-touch, recent-append, touch-last}
use electrum.Shell.{Shell, is_last, space_for_window}
use electrum.Shell.SetFocus.{is_last-eq, pushed, pushed-stack_at, focused}

-- The abstract state: for each seat and workspace, a list with the window focused last in front.
abbrev pub View : Type 0
View = Seat → ℕ → List Window

module _ {sm : Smithay} (env : Env sm) where
  abbrev pub view : World sm → View
  view d q j = recent env (stack_at d q j)

  -- Focusing a window of a workspace, on lists.
  abbrev pub touch_at : View → Seat → ℕ → Window → View
  touch_at v seat idx w q j = if seat == q && idx == j then touch env w (v q j) else v q j

  -- Focusing a surface, on lists: the window that some workspace shows it in goes to the front.
  abbrev pub focus_view : Shell sm → View → Seat → WlSurface → View
  focus_view sh v seat surface = elim (space_for_window env sh.workspaces surface) [
    | none ↦ v
    | some ws ↦ elim (sm.window_for_surface ws.space surface all) [
      | none ↦ v
      | some w ↦ touch_at v seat ws.idx w
    ]
  ]

  -- Where a seat has no stack of a workspace yet, an empty one is shown, and no list has a window
  -- twice.
  pub record IsTidy (d : World sm) : Type 0 where
    pub empty : (q : Seat) → recent env (stacks_of d q).fallback ≡ []
    pub distinct : (q : Seat) (j : ℕ) → Distinct (view d q j)

  abbrev pub fallback_of : SeatData sm → sm.WindowSet
  fallback_of s = (unwrap_or s.focus_stacks no_stacks).fallback

  abbrev pub SameFallback : World sm → World sm → Type 0
  SameFallback d d' = (q : Seat) → fallback_of (d'.seat_data q) ≡ fallback_of (d.seat_data q)

  with_stack-SameFallback :
      (d : World sm) (seat : Seat) (i : ℕ) (s : sm.WindowSet)
      → SameFallback d (with_stack d seat i s)
  with_stack-SameFallback d seat i s q = ground arith

  remove_popup_grab-SameFallback :
      (d : World sm) (seat : Seat) → SameFallback d (remove_popup_grab env d seat)
  remove_popup_grab-SameFallback d seat q =
      ap (λ o. (unwrap_or o no_stacks).fallback) ((remove_popup_grab-focus env d seat q).0)

  pub pushed-SameFallback :
      (ws : Workspace sm) (d : World sm) (w : Window) (seat : Seat)
      → SameFallback d (pushed env ws d w seat)
  unfolding pushed
  pushed-SameFallback ws d w seat q =
      let s = entry_of d seat ws.idx in
      let d1 = with_stack d seat ws.idx s in
      elim (Bool-cases (is_last w (last env s))) [
        | inl e ↦ rw e (with_stack-SameFallback d seat ws.idx s q)
        | inr e ↦ rw e (
            remove_popup_grab-SameFallback (with_stack d1 seat ws.idx (append env s w)) seat q
            ∙ with_stack-SameFallback d1 seat ws.idx (append env s w) q
            ∙ with_stack-SameFallback d seat ws.idx s q)
      ]

  pub focused-SameFallback :
      (d : World sm) (surface : Option WlSurface) (seat : Seat) (serial : Option Serial)
      → SameFallback d (focused env d surface seat serial)
  focused-SameFallback d surface seat serial q = ground arith

  -- The entry that `focus_stack_mut` makes shows what `focus_stack` did.
  entry_of-recent :
      (d : World sm) (seat : Seat) (j : ℕ)
      → IsTidy d
      → recent env (entry_of d seat j) ≡ view d seat j
  unfolding retain
  entry_of-recent d seat j tidy = elim (Option-cases ((stacks_of d seat).stacks j)) [
    | inl e ↦ rw e (rw sm.to_list-new_set (sym (tidy.empty seat)))
    | inr (s, e) ↦ rw e refl
  ]

  entry_of-touch :
      (ws : Workspace sm) (d : World sm) (w : Window) (seat : Seat)
      → IsTidy d
      → let s = entry_of d seat ws.idx in
        recent env (if is_last w (last env s) then s else append env s w)
        ≡ touch env w (view d seat ws.idx)
  entry_of-touch ws d w seat tidy =
      let s = entry_of d seat ws.idx in
      let same = entry_of-recent d seat ws.idx tidy in
      elim (Bool-cases (is_last w (last env s))) [
        | inl e ↦ rw e (
            sym (
              touch-last env s w (subst Distinct (sym same) (tidy.distinct seat ws.idx))
                (is_last-eq w (last env s) e))
            ∙ ap (touch env w) same)
        | inr e ↦ rw e (recent-append env s w ∙ ap (touch env w) same)
      ]

  pub pushed-touch_at :
      (ws : Workspace sm) (d : World sm) (w : Window) (seat q : Seat) (j : ℕ)
      → IsTidy d
      → view (pushed env ws d w seat) q j ≡ touch_at (view d) seat ws.idx w q j
  pushed-touch_at ws d w seat q j tidy =
      let stacks = ap (recent env) (pushed-stack_at env ws d w seat q j) in
      elim (Bool-cases (seat == q && ws.idx == j)) [
        | inl e ↦
            let here : seat ≡ q = ground arith in
            let there : ws.idx ≡ j = ground arith in
            stacks
            ∙ rw e (
                entry_of-touch ws d w seat tidy
                ∙ ap (touch env w) (ap (λ a. view d a ws.idx) here ∙ ap (view d q) there))
        | inr e ↦ stacks ∙ rw e refl
      ]

  pub touch_at-Distinct :
      (v : View) (seat : Seat) (idx : ℕ) (w : Window)
      → ((q : Seat) (j : ℕ) → Distinct (v q j))
      → (q : Seat) (j : ℕ) → Distinct (touch_at v seat idx w q j)
  touch_at-Distinct v seat idx w h q j = elim (Bool-cases (seat == q && idx == j)) [
    | inl e ↦ rw e (Distinct-touch env w (v q j) (h q j))
    | inr e ↦ rw e (h q j)
  ]
