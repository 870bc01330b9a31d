-- ===== src/Focus/Data.antt =====
-- src/shell/focus.rs: what the accessors of a seat's user data return and leave behind.
use electrum.Prelude.{
  ◌==◌, if◌then◌else◌, Option-cases, ok, unwrap, unwrap_or, ℕ, ◌≡◌, ap, inl, inr, ◌&&◌, Option,
  none, some, arith,
}
use electrum.Smithay.{Window, WlSurface, Seat, Smithay}
use electrum.World.{FocusStackData, World, Env, update, set_seat}
use electrum.Focus.{
  last, no_stacks, focus_stacks, set_stacks, focus_stack, put_stack, focus_stack_mut,
  set_active_focus, get_active_focus, remove_popup_grab,
}

-- `get().unwrap()` after `insert_if_missing` gives what was there, or else what was inserted.
slot_some :
    (sm : Smithay) {A : Type 0} (o : Option A) (a : A)
    → unwrap (sm.insert_if_missing o a).0 ≡ ok (unwrap_or o a)
slot_some sm none a = rw (sm.insert_missing a)
slot_some sm (some b) a = rw (sm.insert_present b a)

module _ {sm : Smithay} where
  -- The stacks of a seat, whether or not they were asked for before.
  abbrev pub stacks_of : World sm → Seat → FocusStackData sm
  stacks_of d seat = unwrap_or (d.seat_data seat).focus_stacks no_stacks

  -- The stack of a workspace as `focus_stack` shows it, and its focused window.
  abbrev pub stack_at : World sm → Seat → ℕ → sm.WindowSet
  stack_at d seat idx = unwrap_or ((stacks_of d seat).stacks idx) (stacks_of d seat).fallback

  abbrev pub top : Env sm → World sm → Seat → ℕ → Option Window
  top env d seat idx = last env (stack_at d seat idx)

  pub focus_stacks-eq : (d : World sm) (seat : Seat) → focus_stacks d seat ≡ ok (stacks_of d seat)
  unfolding focus_stacks
  focus_stacks-eq d seat = slot_some sm (d.seat_data seat).focus_stacks no_stacks

  pub focus_stack-eq :
      (idx : ℕ) (d : World sm) (seat : Seat)
      → focus_stack idx d seat ≡ ok (set_stacks d seat (stacks_of d seat), stack_at d seat idx)
  unfolding focus_stack
  focus_stack-eq idx d seat = rw (focus_stacks-eq d seat)

  -- The entry of a workspace, as `focus_stack_mut` makes it.
  abbrev pub entry_of : World sm → Seat → ℕ → sm.WindowSet
  entry_of d seat idx = unwrap_or ((stacks_of d seat).stacks idx) sm.new_set

  abbrev pub with_stack : World sm → Seat → ℕ → sm.WindowSet → World sm
  with_stack d seat idx s =
      set_stacks d seat
        (record (stacks_of d seat) { stacks = update (stacks_of d seat).stacks idx (some s) })

  pub focus_stack_mut-eq :
      (idx : ℕ) (d : World sm) (seat : Seat)
      → focus_stack_mut idx d seat
        ≡ ok (with_stack d seat idx (entry_of d seat idx), entry_of d seat idx)
  unfolding focus_stack_mut
  focus_stack_mut-eq idx d seat = rw (focus_stacks-eq d seat)

  pub put_stack-eq :
      (idx : ℕ) (d : World sm) (seat : Seat) (s : sm.WindowSet)
      → put_stack idx d seat s ≡ ok (with_stack d seat idx s)
  unfolding put_stack
  put_stack-eq idx d seat s = rw (focus_stacks-eq d seat)

  -- `ActiveFocus::set` writes the surface, also into a slot that was missing.
  pub set_active_focus-eq :
      (d : World sm) (seat : Seat) (surface : Option WlSurface)
      → set_active_focus d seat surface
        ≡ ok (set_seat d seat (record (d.seat_data seat) { active_focus = some surface }))
  unfolding set_active_focus
  set_active_focus-eq d seat surface = elim (Option-cases (d.seat_data seat).active_focus) [
    | inl e ↦ rw (e, sm.insert_missing surface)
    | inr (old, e) ↦ rw (e, sm.insert_present old surface)
  ]

  -- Removing a popup grab leaves the focus stacks and the focused surface alone.
  pub remove_popup_grab-focus :
      (env : Env sm) (d : World sm) (seat other : Seat)
      → let d' = remove_popup_grab env d seat in
        ((d'.seat_data other).focus_stacks ≡ (d.seat_data other).focus_stacks)
        × ((d'.seat_data other).active_focus ≡ (d.seat_data other).active_focus)
        × (d'.serial ≡ d.serial)
  unfolding remove_popup_grab
  remove_popup_grab-focus env d seat other = (ground arith, ground arith, ground arith)

  pub stack_at-with_stack :
      (d : World sm) (seat q : Seat) (i j : ℕ) (s : sm.WindowSet)
      → stack_at (with_stack d seat i s) q j ≡ (if seat == q && i == j then s else stack_at d q j)
  stack_at-with_stack d seat q i j s = ground arith

  -- The stacks of a seat depend on one slot of its user data.
  pub stack_at_of_eq :
      (d d' : World sm) (q : Seat) (j : ℕ)
      → (d'.seat_data q).focus_stacks ≡ (d.seat_data q).focus_stacks
      → stack_at d' q j ≡ stack_at d q j
  stack_at_of_eq d d' q j =
      ap (λ o. unwrap_or ((unwrap_or o no_stacks).stacks j) (unwrap_or o no_stacks).fallback)

  pub stack_at-remove_popup_grab :
      (env : Env sm) (d : World sm) (seat q : Seat) (j : ℕ)
      → stack_at (remove_popup_grab env d seat) q j ≡ stack_at d q j
  stack_at-remove_popup_grab env d seat q j =
      stack_at_of_eq d (remove_popup_grab env d seat) q j ((remove_popup_grab-focus env d seat q).0)

  -- What `focus_stack` leaves of the shared state.
  abbrev pub touched : World sm → Seat → World sm
  touched d seat = set_stacks d seat (stacks_of d seat)

  pub stack_at-touched :
      (d : World sm) (seat q : Seat) (j : ℕ) → stack_at (touched d seat) q j ≡ stack_at d q j
  stack_at-touched d seat q j = ground arith

  pub get_active_focus-touched :
      (d : World sm) (seat q : Seat) → get_active_focus (touched d seat) q ≡ get_active_focus d q
  unfolding get_active_focus
  get_active_focus-touched d seat q = ground arith
