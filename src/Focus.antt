-- ===== src/Focus.antt =====
-- src/shell/focus.rs: the stacks of focused windows and the focused surface, both in the user data
-- of a seat.
pub mod Stack
pub mod Data
pub mod Recent
use electrum.Prelude.{
  if◌then◌else◌, find, Outcome, ok, ◌>>=◌, unwrap, unwrap_or, ℕ, Option, none, some, reverse,
}
use electrum.Smithay.{Window, WlSurface, Seat, Smithay}
use electrum.World.{FocusStackData, ungrab_popup, World, Env, update, emit, set_seat}

module _ {sm : Smithay} where
  -- `FocusStack::last`, `FocusStackMut::last`
  unfoldable pub last : Env sm → sm.WindowSet → Option Window
  last env s = find env.alive (reverse (sm.to_list s))

  -- `FocusStackMut::append`
  unfoldable pub append : Env sm → sm.WindowSet → Window → sm.WindowSet
  append env s w = sm.insert_set (sm.shift_remove (sm.retain_set env.alive s) w) w

  abbrev pub no_stacks : FocusStackData sm
  no_stacks = record { stacks = λ _. none; fallback = sm.new_set }

  -- `insert_if_missing` and `get().unwrap()`, as both accessors begin.
  unfoldable pub focus_stacks : World sm → Seat → Outcome (FocusStackData sm)
  focus_stacks d seat = unwrap (sm.insert_if_missing (d.seat_data seat).focus_stacks no_stacks).0

  abbrev pub set_stacks : World sm → Seat → FocusStackData sm → World sm
  set_stacks d seat f = set_seat d seat (record (d.seat_data seat) { focus_stacks = some f })

  -- `Workspace::focus_stack`
  pub focus_stack : ℕ → World sm → Seat → Outcome (World sm × sm.WindowSet)
  focus_stack idx d seat = do
    f ← focus_stacks d seat
    ok (set_stacks d seat f, unwrap_or (f.stacks idx) f.fallback)

  -- A write through the reference that `focus_stack_mut` returns.
  unfoldable pub put_stack : ℕ → World sm → Seat → sm.WindowSet → Outcome (World sm)
  put_stack idx d seat s = do
    f ← focus_stacks d seat
    ok (set_stacks d seat (record f { stacks = update f.stacks idx (some s) }))

  -- `Workspace::focus_stack_mut`
  unfoldable pub focus_stack_mut : ℕ → World sm → Seat → Outcome (World sm × sm.WindowSet)
  focus_stack_mut idx d seat = do
    f ← focus_stacks d seat
    let s = unwrap_or (f.stacks idx) sm.new_set
    ok (set_stacks d seat (record f { stacks = update f.stacks idx (some s) }), s)

  -- `ActiveFocus::set`. The slot holds a `RefCell`.
  unfoldable pub set_active_focus : World sm → Seat → Option WlSurface → Outcome (World sm)
  set_active_focus d seat surface = do
    let s = d.seat_data seat
    let (slot, inserted) = sm.insert_if_missing s.active_focus surface
    old ← unwrap slot
    let value = if inserted then old else surface
    ok (set_seat d seat (record s { active_focus = some value }))

  -- `ActiveFocus::get`
  unfoldable pub get_active_focus : World sm → Seat → Option WlSurface
  get_active_focus d seat = elim (d.seat_data seat).active_focus [
    | none ↦ none
    | some surface ↦ surface
  ]

  -- "also remove popup grabs, if we are switching focus"
  unfoldable pub remove_popup_grab : Env sm → World sm → Seat → World sm
  remove_popup_grab env d seat = elim (d.seat_data seat).popup_grab [
    | none ↦ d
    | some held ↦
        let taken = set_seat d seat (record (d.seat_data seat) { popup_grab = some none }) in
        elim held [
          | none ↦ taken
          | some grab ↦ if env.has_ended grab then taken else emit taken (ungrab_popup grab)
        ]
  ]
