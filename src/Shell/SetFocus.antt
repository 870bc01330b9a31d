-- ===== src/Shell/SetFocus.antt =====
-- src/shell/focus.rs: what `Shell::set_focus` leaves behind.
pub mod Slots
pub mod Recent
pub mod Refinement
use electrum.Prelude.{
  ◌==◌, if◌then◌else◌, ==-refl, Bool-cases, ok, ℕ, ◌≡◌, refl, ap, ◌∙◌, inl, inr, Bool, true, false,
  ◌&&◌, Option, none, some, List, ◌∷◌, arith,
}
use electrum.Smithay.{Window, WlSurface, Seat, Serial, all, Smithay}
use electrum.World.{Effect, keyboard_focus, World, Env, emit, set_seat}
use electrum.Workspace.{Workspace}
use electrum.Focus.{last, append, focus_stacks, get_active_focus, remove_popup_grab}
use electrum.Focus.Data.{
  stack_at, top, entry_of, with_stack, focus_stack_mut-eq, put_stack-eq, set_active_focus-eq,
  stack_at-with_stack, stack_at_of_eq, stack_at-remove_popup_grab,
}
use electrum.Focus.Stack.{last-append}
use electrum.Shell.{
  Shell, is_last, space_for_window, push_focus, focus_window, serial_or_next, set_focus,
}

pub is_last-eq : (w : Window) (o : Option Window) → is_last w o ≡ true → o ≡ some w
is_last-eq w none h = absurd (ground arith)
is_last-eq w (some v) h = ground arith

-- A write on top of a write to the same place.
twice {ℓ} :
    {A : Type ℓ} (b : Bool) (t s old mid : A)
    → mid ≡ (if b then s else old)
    → (if b then t else mid) ≡ (if b then t else old)
twice true t s old mid e = refl
twice false t s old mid e = e

module _ {sm : Smithay} (env : Env sm) where
  -- The seats' data after a window was pushed on the stack of its workspace.
  unfoldable pub pushed : Workspace sm → World sm → Window → Seat → World sm
  pushed ws d w seat =
      let s = entry_of d seat ws.idx in
      let d1 = with_stack d seat ws.idx s in
      if is_last w (last env s)
      then d1
      else remove_popup_grab env (with_stack d1 seat ws.idx (append env s w)) seat

  pub push_focus-eq :
      (ws : Workspace sm) (d : World sm) (w : Window) (seat : Seat)
      → push_focus env ws d w seat ≡ ok (pushed ws d w seat)
  unfolding push_focus pushed
  push_focus-eq ws d w seat =
      let s = entry_of d seat ws.idx in
      let d1 = with_stack d seat ws.idx s in
      rw (focus_stack_mut-eq ws.idx d seat) (elim (Bool-cases (is_last w (last env s))) [
        | inl e ↦ rw e
        | inr e ↦ rw (e, put_stack-eq ws.idx d1 seat (append env s w))
      ])

  pub pushed-stack_at :
      (ws : Workspace sm) (d : World sm) (w : Window) (seat q : Seat) (j : ℕ)
      → let s = entry_of d seat ws.idx in
        stack_at (pushed ws d w seat) q j ≡ (
          if seat == q && ws.idx == j
          then (if is_last w (last env s) then s else append env s w)
          else stack_at d q j)
  unfolding pushed
  pushed-stack_at ws d w seat q j =
      let s = entry_of d seat ws.idx in
      let d1 = with_stack d seat ws.idx s in
      let t = append env s w in
      elim (Bool-cases (is_last w (last env s))) [
        | inl e ↦ rw e (stack_at-with_stack d seat q ws.idx j s)
        | inr e ↦ rw e (
            stack_at-remove_popup_grab env (with_stack d1 seat ws.idx t) seat q j
            ∙ stack_at-with_stack d1 seat q ws.idx j t
            ∙ twice (seat == q && ws.idx == j) t s (stack_at d q j) (stack_at d1 q j)
                (stack_at-with_stack d seat q ws.idx j s))
      ]

  pushed-top :
      (ws : Workspace sm) (d : World sm) (w : Window) (seat : Seat)
      → env.alive w ≡ true
      → top env (pushed ws d w seat) seat ws.idx ≡ some w
  pushed-top ws d w seat a =
      let s = entry_of d seat ws.idx in
      rw (pushed-stack_at ws d w seat seat ws.idx, ==-refl seat, ==-refl ws.idx)
        (elim (Bool-cases (is_last w (last env s))) [
          | inl e ↦ rw e (is_last-eq w (last env s) e)
          | inr e ↦ rw (e, last-append env s w, a)
        ])

  -- The shared state after the keyboard focus of a seat was set.
  abbrev pub focused : World sm → Option WlSurface → Seat → Option Serial → World sm
  focused d surface seat serial =
      let d' = set_seat d seat (record (d.seat_data seat) { active_focus = some surface }) in
      let (n, d'') = serial_or_next env d' serial in emit d'' (keyboard_focus seat surface n)

  stacks_of-focused :
      (d : World sm) (surface : Option WlSurface) (seat q : Seat) (serial : Option Serial)
      → ((focused d surface seat serial).seat_data q).focus_stacks ≡ (d.seat_data q).focus_stacks
  stacks_of-focused d surface seat q serial = ground arith

  pub stack_at-focused :
      (d : World sm) (surface : Option WlSurface) (seat q : Seat) (serial : Option Serial) (j : ℕ)
      → stack_at (focused d surface seat serial) q j ≡ stack_at d q j
  stack_at-focused d surface seat q serial j =
      stack_at_of_eq d (focused d surface seat serial) q j
        (stacks_of-focused d surface seat q serial)

  pub get_active_focus-focused :
      (d : World sm) (surface : Option WlSurface) (seat : Seat) (serial : Option Serial)
      → get_active_focus (focused d surface seat serial) seat ≡ surface
  unfolding get_active_focus
  get_active_focus-focused d surface seat serial = ground arith

  set_focus-eq :
      (sh : Shell sm) (d : World sm) (surface : WlSurface) (seat : Seat) (serial : Option Serial)
      (ws : Workspace sm) (w : Window)
      → space_for_window env sh.workspaces surface ≡ some ws
      → sm.window_for_surface ws.space surface all ≡ some w
      → env.has_keyboard seat ≡ true
      → set_focus env sh d (some surface) seat serial
        ≡ ok (focused (pushed ws d w seat) (some surface) seat serial)
  unfolding set_focus focus_window
  set_focus-eq sh d surface seat serial ws w found shows kb =
      rw (found, focus_window)
        (rw (shows, push_focus-eq ws d w seat)
          (rw kb (rw (set_active_focus-eq (pushed ws d w seat) seat (some surface)))))

  -- Giving the focus to the surface of a live window, on a seat with a keyboard, succeeds. The
  -- window is then on top of the seat's stack of its workspace, the seat's focused surface is that
  -- surface, and the last call that went out tells the keyboard so. The seat's stacks of other
  -- workspaces and the stacks of other seats are as before.
  pub set_focus-focuses :
      (sh : Shell sm) (d : World sm) (surface : WlSurface) (seat : Seat) (serial : Option Serial)
      (ws : Workspace sm) (w : Window)
      → space_for_window env sh.workspaces surface ≡ some ws
      → sm.window_for_surface ws.space surface all ≡ some w
      → env.has_keyboard seat ≡ true
      → env.alive w ≡ true
      → (d' : World sm) × (n : Serial) × (before : List (Effect sm)) × (set_focus env sh d
            (some surface)
            seat
            serial
          ≡ ok d')
        × (top env d' seat ws.idx ≡ some w)
        × (get_active_focus d' seat ≡ some surface)
        × (d'.effects ≡ keyboard_focus seat (some surface) n ∷ before)
        × ((q : Seat) (j : ℕ)
            → (seat == q && ws.idx == j) ≡ false
            → stack_at d' q j ≡ stack_at d q j)
  set_focus-focuses sh d surface seat serial ws w found shows kb live =
      let d1 = pushed ws d w seat in
      (
        focused d1 (some surface) seat serial,
        (serial_or_next env d1 serial).0,
        d1.effects,
        set_focus-eq sh d surface seat serial ws w found shows kb,
        ap (last env) (stack_at-focused d1 (some surface) seat seat serial ws.idx)
            ∙ pushed-top ws d w seat live,
        get_active_focus-focused d1 (some surface) seat serial,
        ground arith,
        λ q j other.
            stack_at-focused d1 (some surface) seat q serial j
            ∙ pushed-stack_at ws d w seat q j
            ∙ rw other,
      )
