-- ===== src/Shell/Common/Steady.antt =====
-- src/shell/focus.rs: `update_active` always runs through and moves no seat's focus.
use electrum.Prelude.{ok, unwrap_or, ◌≡◌, refl, ap, ◌∙◌, Option, none, some, List, [], ◌∷◌, ◌++◌}
use electrum.Smithay.{Window, WlSurface, Output, Seat, has, Smithay}
use electrum.World.{SeatData, configure, World, Env, update-same, emit}
use electrum.Workspace.{Workspace}
use electrum.Focus.{last, get_active_focus}
use electrum.Focus.Data.{stacks_of, focus_stack-eq, touched}
use electrum.Shell.{Shell, active_workspace, set_workspace}
use electrum.Shell.Common.{
  option_to_list, focused_of_seat, focused_windows, raise_all, configure_all, activate,
  update_active,
}
use electrum.Shell.Common.Activation.{active_workspace-set_workspace}

module _ {sm : Smithay} (env : Env sm) where
  -- The user data of a seat, apart from its focus stacks.
  abbrev pub but_stacks : SeatData sm → SeatData sm
  but_stacks s = record s { focus_stacks = none }

  -- Two states that differ in no seat's data, apart from focus stacks.
  abbrev pub SameButStacks : World sm → World sm → Type 0
  SameButStacks d d' = (q : Seat) → but_stacks (d'.seat_data q) ≡ but_stacks (d.seat_data q)

  -- Two states in which each seat has the same focus.
  abbrev pub SameFocus : World sm → World sm → Type 0
  SameFocus d d' = (q : Seat) → get_active_focus d' q ≡ get_active_focus d q

  pub touched-SameButStacks : (d : World sm) (seat : Seat) → SameButStacks d (touched d seat)
  touched-SameButStacks d seat q =
      update-same but_stacks d.seat_data seat
        (record (d.seat_data seat) { focus_stacks = some (stacks_of d seat) }) q refl

  focused_of_seat_lem :
      (sh : Shell sm) (ws : Workspace sm) (os : List Output) (d : World sm) (seat : Seat)
      → active_workspace sh.workspaces ≡ ok ws
      → (d' : World sm) × (fs : List Window) × (focused_of_seat env sh os d seat ≡ ok (d', fs))
        × SameButStacks d d'
  unfolding focused_of_seat
  focused_of_seat_lem sh ws [] d seat first = (d, [], refl, λ q. refl)
  focused_of_seat_lem sh ws (o ∷ os) d seat first =
      let (d', fs, e, same) = focused_of_seat_lem sh ws os (touched d seat) seat first in
      (
        d',
        option_to_list
              (last env (unwrap_or ((stacks_of d seat).stacks ws.idx) (stacks_of d seat).fallback))
            ++ fs,
        rw first (rw (focus_stack-eq ws.idx d seat) (rw e)),
        λ q. same q ∙ touched-SameButStacks d seat q,
      )

  focused_windows_lem :
      (sh : Shell sm) (ws : Workspace sm) (seats : List Seat) (d : World sm)
      → active_workspace sh.workspaces ≡ ok ws
      → (d' : World sm) × (fs : List Window) × (focused_windows env sh d seats ≡ ok (d', fs))
        × SameButStacks d d'
  unfolding focused_windows
  focused_windows_lem sh ws [] d first = (d, [], refl, λ q. refl)
  focused_windows_lem sh ws (seat ∷ seats) d first =
      let (d1, fs, e, same) = focused_of_seat_lem sh ws sh.outputs d seat first in
      let (d2, more, e', same') = focused_windows_lem sh ws seats d1 first in
      (d2, fs ++ more, rw e (rw e'), λ q. same' q ∙ same q)

  configure_all-seats :
      (focused ws : List Window) (d : World sm)
      → (configure_all env focused ws d).seat_data ≡ d.seat_data
  unfolding configure_all
  configure_all-seats focused [] d = refl
  configure_all-seats focused (w ∷ ws) d =
      configure_all-seats focused ws (emit d (configure w (has focused w)))

  activate_lem :
      (os : List Output) (focused : List Window) (sh : Shell sm) (ws : Workspace sm) (d : World sm)
      → active_workspace sh.workspaces ≡ ok ws
      → (sh' : Shell sm) × (ws' : Workspace sm) × (d' : World sm) × (activate env os focused sh d
          ≡ ok (sh', d'))
        × (active_workspace sh'.workspaces ≡ ok ws')
        × (sh'.outputs ≡ sh.outputs)
        × (d'.seat_data ≡ d.seat_data)
  unfolding activate
  activate_lem [] focused sh ws d first = (sh, ws, d, refl, first, refl, refl)
  activate_lem (o ∷ os) focused sh ws d first =
      let space = raise_all env focused ws.space in
      let ws1 = record ws { space = space } in
      let sh1 = record sh { workspaces = set_workspace sh.workspaces 0 ws1 } in
      let d1 = configure_all env focused (sm.windows space) d in
      let (sh', ws', d', e, first', outs, same) =
        activate_lem os focused sh1 ws1 d1
          (active_workspace-set_workspace env sh.workspaces ws ws1 first) in
      (
        sh',
        ws',
        d',
        rw first e,
        first',
        outs,
        same ∙ configure_all-seats focused (sm.windows space) d,
      )

  -- What `update_active` leaves: the outputs, an active workspace, and all data of seats except
  -- focus stacks.
  pub update_active-SameButStacks :
      (sh : Shell sm) (ws : Workspace sm) (d : World sm) (seats : List Seat)
      → active_workspace sh.workspaces ≡ ok ws
      → (sh' : Shell sm) × (ws' : Workspace sm) × (d' : World sm) × (update_active env sh d seats
          ≡ ok (sh', d'))
        × (active_workspace sh'.workspaces ≡ ok ws')
        × (sh'.outputs ≡ sh.outputs)
        × SameButStacks d d'
  unfolding update_active
  update_active-SameButStacks sh ws d seats first =
      let (d1, fs, e, same) = focused_windows_lem sh ws seats d first in
      let (sh', ws', d', e', first', outs, seats') = activate_lem sh.outputs fs sh ws d1 first in
      (sh', ws', d', rw e e', first', outs, λ q. ap (λ f. but_stacks (f q)) seats' ∙ same q)

  abbrev focus_of : SeatData sm → Option WlSurface
  focus_of s = elim s.active_focus [ none ↦ none | some surface ↦ surface ]

  pub update_active_lem :
      (sh : Shell sm) (ws : Workspace sm) (d : World sm) (seats : List Seat)
      → active_workspace sh.workspaces ≡ ok ws
      → (sh' : Shell sm) × (d' : World sm) × (update_active env sh d seats ≡ ok (sh', d'))
        × SameFocus d d'
  unfolding get_active_focus
  update_active_lem sh ws d seats first =
      let (sh', ws', d', e, _, _, same) = update_active-SameButStacks sh ws d seats first in
      (sh', d', e, λ q. ap focus_of (same q))
