-- ===== src/Shell/Common/Running.antt =====
-- src/shell/focus.rs: `refresh_focus` always runs through, and leaves the slots of seats that are not
-- about the focus alone.
use electrum.Prelude.{
  Bool-cases, Option-cases, ok, unwrap_or, ◌≡◌, refl, ap, ◌∙◌, inl, inr, Option, none, some, List,
  [], ◌∷◌,
}
use electrum.Smithay.{WlSurface, Seat, all, Smithay}
use electrum.World.{keyboard_focus, World, Env, emit, set_seat}
use electrum.Workspace.{Workspace}
use electrum.Focus.{last, get_active_focus, remove_popup_grab}
use electrum.Focus.Data.{stacks_of, focus_stack-eq, set_active_focus-eq, touched}
use electrum.Shell.{Shell, active_workspace}
use electrum.Shell.SetFocus.Slots.{
  unfocused, SameSlots, set_seat-SameSlots, remove_popup_grab-SameSlots,
}
use electrum.Shell.Common.{
  CommonState, Verdict, skip, good, fixup, verdict_on, judge_toplevel, judge, surface_of, fix_focus,
  refresh_seat, refresh_seats, refresh_focus,
}
use electrum.Shell.Common.Steady.{touched-SameButStacks, update_active-SameButStacks}

module _ {sm : Smithay} (env : Env sm) where
  touched-SameSlots : (d : World sm) (seat : Seat) → SameSlots d (touched d seat)
  touched-SameSlots d seat q = ap unfocused (touched-SameButStacks env d seat q)

  module _ (sh : Shell sm) (ws : Workspace sm)
      (first : active_workspace sh.workspaces ≡ ok ws) where
    judge_total :
        (d : World sm) (seat : Seat) (focus : Option WlSurface)
        → (d' : World sm) × (v : Verdict) × (judge env sh d seat focus ≡ ok (d', v))
          × SameSlots d d'
    unfolding judge judge_toplevel
    judge_total d seat none = (d, good, refl, λ q. refl)
    judge_total d seat (some surface) = elim (Bool-cases (env.surface_alive surface)) [
      | inr e ↦ (d, fixup, rw e refl, λ q. refl)
      | inl e ↦ elim (Bool-cases (env.is_toplevel surface)) [
        | inr f ↦ (d, skip, rw (e, f) refl, λ q. refl)
        | inl f ↦ elim (Option-cases (sm.window_for_surface ws.space surface all)) [
          | inl g ↦ (d, fixup, rw (e, f, judge_toplevel) (rw first (rw g refl)), λ q. refl)
          | inr (w, g) ↦ (
            touched d seat,
            verdict_on
                (last env
                  (unwrap_or ((stacks_of d seat).stacks ws.idx) (stacks_of d seat).fallback))
                w,
            rw (e, f, judge_toplevel) (rw first (rw g (rw (focus_stack-eq ws.idx d seat) refl))),
            touched-SameSlots d seat,
          )
        ]
      ]
    ]

    fix_focus_total :
        (d : World sm) (seat : Seat)
        → (d' : World sm) × (fix_focus env sh d seat ≡ ok d') × SameSlots d d'
    unfolding fix_focus
    fix_focus_total d seat =
        let d1 = remove_popup_grab env d seat in
        let d2 = touched d1 seat in
        let surface =
          surface_of env (
            last env
              (unwrap_or ((stacks_of d1 seat).stacks ws.idx) (stacks_of d1 seat).fallback)) in
        let n = sm.next_serial d2.serial in
        let d3 = emit (record d2 { serial = n }) (keyboard_focus seat surface n) in
        let d4 = set_seat d3 seat (record (d3.seat_data seat) { active_focus = some surface }) in
        let same =
          λ (q : Seat). touched-SameSlots d1 seat q ∙ remove_popup_grab-SameSlots env d seat q in
        elim (Bool-cases (env.has_keyboard seat)) [
          | inl kb ↦ (
            d4,
            rw first
                (rw (focus_stack-eq ws.idx d1 seat) (rw kb (set_active_focus-eq d3 seat surface))),
            λ q.
                set_seat-SameSlots d3 seat
                  (record (d3.seat_data seat) { active_focus = some surface }) refl q
                ∙ same q,
          )
          | inr kb ↦ (d2, rw first (rw (focus_stack-eq ws.idx d1 seat) (rw kb refl)), same)
        ]

    act_total :
        (d : World sm) (seat : Seat) (v : Verdict)
        → (d' : World sm) × ((elim v [
          | skip ↦ ok d
          | good ↦ ok d
          | fixup ↦ fix_focus env sh d seat
        ])
            ≡ ok d')
          × SameSlots d d'
    act_total d seat skip = (d, refl, λ q. refl)
    act_total d seat good = (d, refl, λ q. refl)
    act_total d seat fixup = fix_focus_total d seat

    refresh_seat_total :
        (d : World sm) (seat : Seat)
        → (d' : World sm) × (refresh_seat env sh d seat ≡ ok d') × SameSlots d d'
    unfolding refresh_seat
    refresh_seat_total d seat =
        let (d1, v, judged, same) = judge_total d seat (get_active_focus d seat) in
        let (d2, acts, same') = act_total d1 seat v in (d2, rw judged acts, λ q. same' q ∙ same q)

    refresh_seats_total :
        (seats : List Seat) (d : World sm)
        → (d' : World sm) × (refresh_seats env sh d seats ≡ ok d') × SameSlots d d'
    unfolding refresh_seats
    refresh_seats_total [] d = (d, refl, λ q. refl)
    refresh_seats_total (seat ∷ seats) d =
        let (d1, runs, same) = refresh_seat_total d seat in
        let (d2, goes_on, same') = refresh_seats_total seats d1 in
        (d2, rw runs goes_on, λ q. same' q ∙ same q)

  pub refresh_focus-SameSlots :
      (c : CommonState sm) (ws : Workspace sm) (d : World sm)
      → active_workspace c.shell.workspaces ≡ ok ws
      → (sh' : Shell sm) × (ws' : Workspace sm) × (d' : World sm) × (refresh_focus env c d
          ≡ ok (record c { shell = sh' }, d'))
        × (active_workspace sh'.workspaces ≡ ok ws')
        × (sh'.outputs ≡ c.shell.outputs)
        × SameSlots d d'
  unfolding refresh_focus
  refresh_focus-SameSlots c ws d first =
      let (d1, goes_first, same) = refresh_seats_total c.shell ws first c.seats d in
      let (sh', ws', d2, updates, first', outs, same') =
        update_active-SameButStacks env c.shell ws d1 c.seats first in
      (
        sh',
        ws',
        d2,
        rw goes_first (rw updates refl),
        first',
        outs,
        λ q. ap unfocused (same' q) ∙ same q,
      )
