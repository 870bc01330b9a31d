-- ===== src/Shell/SetFocus/Slots.antt =====
-- src/shell/focus.rs: setting the focus always runs through, and it leaves the slots of a seat that
-- are not about the focus alone.
use electrum.Prelude.{
  Bool-cases, Option-cases, ok, ℕ, ◌≡◌, refl, ap, ◌∙◌, inl, inr, Option, none, some,
}
use electrum.Smithay.{Window, WlSurface, Seat, Serial, all, Smithay}
use electrum.World.{SeatData, World, Env, update, update-same, set_seat}
use electrum.Workspace.{Workspace}
use electrum.Focus.{last, append, remove_popup_grab}
use electrum.Focus.Data.{stacks_of, entry_of, with_stack, set_active_focus-eq}
use electrum.Shell.{Shell, is_last, active_workspace, space_for_window, focus_window, set_focus}
use electrum.Shell.SetFocus.{pushed, push_focus-eq, focused}
use electrum.Shell.Common.{CommonState, set_common_focus}
use electrum.Shell.Common.Steady.{update_active-SameButStacks}

module _ {sm : Smithay} where
  -- The user data of a seat, apart from what `src/shell/focus.rs` keeps there.
  abbrev pub unfocused : SeatData sm → SeatData sm
  unfocused s = record s { focus_stacks = none; active_focus = none; popup_grab = none }

  -- Two states that differ in no seat's data, apart from the focus.
  abbrev pub SameSlots : World sm → World sm → Type 0
  SameSlots d d' = (q : Seat) → unfocused (d'.seat_data q) ≡ unfocused (d.seat_data q)

  pub set_seat-SameSlots :
      (d : World sm) (seat : Seat) (s : SeatData sm)
      → unfocused s ≡ unfocused (d.seat_data seat)
      → SameSlots d (set_seat d seat s)
  set_seat-SameSlots d seat s e q = update-same unfocused d.seat_data seat s q e

  with_stack-SameSlots :
      (d : World sm) (seat : Seat) (i : ℕ) (s : sm.WindowSet) → SameSlots d (with_stack d seat i s)
  with_stack-SameSlots d seat i s =
      set_seat-SameSlots d seat
        (record (d.seat_data seat) {
          focus_stacks =
              some (record (stacks_of d seat) {
                stacks = update (stacks_of d seat).stacks i (some s);
              });
        })
        refl

module _ {sm : Smithay} (env : Env sm) where
  pub remove_popup_grab-SameSlots :
      (d : World sm) (seat : Seat) → SameSlots d (remove_popup_grab env d seat)
  unfolding remove_popup_grab
  remove_popup_grab-SameSlots d seat q =
      let s = record (d.seat_data seat) { popup_grab = some none } in
      let taken = set_seat-SameSlots d seat s refl q in
      elim (Option-cases (d.seat_data seat).popup_grab) [
        | inl e ↦ rw (remove_popup_grab, e) refl
        | inr (none, e) ↦ rw (remove_popup_grab, e) taken
        | inr (some grab, e) ↦ elim (Bool-cases (env.has_ended grab)) [
          | inl f ↦ rw (remove_popup_grab, e, f) taken
          | inr f ↦ rw (remove_popup_grab, e, f) taken
        ]
      ]

  pushed-SameSlots :
      (ws : Workspace sm) (d : World sm) (w : Window) (seat : Seat)
      → SameSlots d (pushed env ws d w seat)
  unfolding pushed
  pushed-SameSlots ws d w seat q =
      let s = entry_of d seat ws.idx in
      let d1 = with_stack d seat ws.idx s in
      elim (Bool-cases (is_last w (last env s))) [
        | inl e ↦ rw e (with_stack-SameSlots d seat ws.idx s q)
        | inr e ↦ rw e (
            remove_popup_grab-SameSlots (with_stack d1 seat ws.idx (append env s w)) seat q
            ∙ with_stack-SameSlots d1 seat ws.idx (append env s w) q
            ∙ with_stack-SameSlots d seat ws.idx s q)
      ]

  pub focus_window-SameSlots :
      (sh : Shell sm) (d : World sm) (surface : Option WlSurface) (seat : Seat)
      → (d' : World sm) × (focus_window env sh d surface seat ≡ ok d') × SameSlots d d'
  unfolding focus_window
  focus_window-SameSlots sh d none seat = (d, refl, λ q. refl)
  focus_window-SameSlots sh d (some surface) seat =
      elim (Option-cases (space_for_window env sh.workspaces surface)) [
        | inl e ↦ (d, rw (focus_window, e) refl, λ q. refl)
        | inr (ws, e) ↦ elim (Option-cases (sm.window_for_surface ws.space surface all)) [
          | inl f ↦ (d, rw (focus_window, e, f) refl, λ q. refl)
          | inr (w, f) ↦ (
            pushed env ws d w seat,
            rw (focus_window, e, f) (push_focus-eq env ws d w seat),
            pushed-SameSlots ws d w seat,
          )
        ]
      ]

  pub focused-SameSlots :
      (d : World sm) (surface : Option WlSurface) (seat : Seat) (serial : Option Serial)
      → SameSlots d (focused env d surface seat serial)
  focused-SameSlots d surface seat none =
      set_seat-SameSlots d seat (record (d.seat_data seat) { active_focus = some surface }) refl
  focused-SameSlots d surface seat (some n) =
      set_seat-SameSlots d seat (record (d.seat_data seat) { active_focus = some surface }) refl

  pub set_focus-SameSlots :
      (sh : Shell sm) (d : World sm) (surface : Option WlSurface) (seat : Seat)
      (serial : Option Serial)
      → (d' : World sm) × (set_focus env sh d surface seat serial ≡ ok d') × SameSlots d d'
  unfolding set_focus
  set_focus-SameSlots sh d surface seat serial =
      let (d1, runs, same) = focus_window-SameSlots sh d surface seat in
      elim (Bool-cases (env.has_keyboard seat)) [
        | inl kb ↦ (
          focused env d1 surface seat serial,
          rw (set_focus, runs, kb) (rw (set_active_focus-eq d1 seat surface) refl),
          λ q. focused-SameSlots d1 surface seat serial q ∙ same q,
        )
        | inr kb ↦ (d1, rw (set_focus, runs, kb) refl, same)
      ]

  -- The same for the focus of all seats, with what is left of the shell.
  pub set_common_focus-SameSlots :
      (c : CommonState sm) (ws : Workspace sm) (d : World sm) (surface : Option WlSurface)
      (seat : Seat) (serial : Option Serial)
      → active_workspace c.shell.workspaces ≡ ok ws
      → (sh' : Shell sm) × (ws' : Workspace sm) × (d' : World sm) × (set_common_focus env c d
            surface seat serial
          ≡ ok (record c { shell = sh' }, d'))
        × (active_workspace sh'.workspaces ≡ ok ws')
        × (sh'.outputs ≡ c.shell.outputs)
        × SameSlots d d'
  unfolding set_common_focus
  set_common_focus-SameSlots c ws d surface seat serial first =
      let (d1, sets, same) = set_focus-SameSlots c.shell d surface seat serial in
      let (sh', ws', d2, updates, first', outs, same') =
        update_active-SameButStacks env c.shell ws d1 c.seats first in
      (sh', ws', d2, rw sets (rw updates refl), first', outs, λ q. ap unfocused (same' q) ∙ same q)
