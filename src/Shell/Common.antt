-- ===== src/Shell/Common.antt =====
-- src/shell/focus.rs: `update_active`, and the `impl CommonState`, which moves the focus on when
-- the focused surface has gone.
pub mod RefreshFocus
pub mod Activation
pub mod Steady
pub mod Running
use electrum.Prelude.{
  ◌==◌, if◌then◌else◌, Outcome, ok, ◌>>=◌, true, not, Option, none, some, List, [], ◌∷◌, ◌++◌,
}
use electrum.Smithay.{Window, WlSurface, Output, Seat, Serial, all, has, Smithay}
use electrum.World.{keyboard_focus, configure, World, Env, emit}
use electrum.Focus.{last, focus_stack, set_active_focus, get_active_focus, remove_popup_grab}
use electrum.Shell.{Shell, active_workspace, set_workspace, take_serial, set_focus}

-- `shell`, `seats` and `last_active_seat` of `CommonState`.
module _ (sm : Smithay) where
  pub record CommonState : Type 0 where
    pub shell : Shell sm
    pub seats : List Seat
    pub last_active_seat : Seat

abbrev pub option_to_list : Option Window → List Window
option_to_list none = []
option_to_list (some w) = w ∷ []

-- What `refresh_focus` finds out of one seat: nothing to do and on to the next seat, no fixup,
-- or a fixup.
pub data Verdict : Type 0 where
  skip good fixup : Verdict

-- `focus_stack.last().map(|w| &w != window).unwrap_or(true)`
pub verdict_on : Option Window → Window → Verdict
verdict_on none w = fixup
verdict_on (some v) w = if v == w then good else fixup

module _ {sm : Smithay} (env : Env sm) where
  -- The inner closure of `focused_windows`: once for each output.
  pub focused_of_seat : Shell sm → List Output → World sm → Seat → Outcome (World sm × List Window)
  focused_of_seat sh [] d seat = ok (d, [])
  focused_of_seat sh (_ ∷ os) d seat = do
    ws ← active_workspace sh.workspaces
    (d', stack) ← focus_stack ws.idx d seat
    (d'', more) ← focused_of_seat sh os d' seat
    ok (d'', option_to_list (last env stack) ++ more)

  pub focused_windows : Shell sm → World sm → List Seat → Outcome (World sm × List Window)
  focused_windows sh d [] = ok (d, [])
  focused_windows sh d (seat ∷ seats) = do
    (d', ws) ← focused_of_seat sh sh.outputs d seat
    (d'', more) ← focused_windows sh d' seats
    ok (d'', ws ++ more)

  pub raise_all : List Window → sm.Space → sm.Space
  raise_all [] s = s
  raise_all (w ∷ ws) s = raise_all ws (sm.raise_window s w true)

  -- `set_activated` and `configure` of every window of the space.
  pub configure_all : List Window → List Window → World sm → World sm
  configure_all focused [] d = d
  configure_all focused (w ∷ ws) d = configure_all focused ws (emit d (configure w (has focused w)))

  -- `for _ in self.outputs.iter()`
  pub activate : List Output → List Window → Shell sm → World sm → Outcome (Shell sm × World sm)
  activate [] focused sh d = ok (sh, d)
  activate (_ ∷ os) focused sh d = do
    ws ← active_workspace sh.workspaces
    let space = raise_all focused ws.space
    let sh' = record sh { workspaces = set_workspace sh.workspaces 0 (record ws { space = space }) }
    activate os focused sh' (configure_all focused (sm.windows space) d)

  -- `Shell::update_active`
  pub update_active : Shell sm → World sm → List Seat → Outcome (Shell sm × World sm)
  update_active sh d seats = do
    (d', focused) ← focused_windows sh d seats
    activate sh.outputs focused sh d'

  -- `CommonState::set_focus`
  unfoldable pub set_common_focus :
      CommonState sm
      → World sm
      → Option WlSurface
      → Seat
      → Option Serial
      → Outcome (CommonState sm × World sm)
  set_common_focus c d surface seat serial = do
    d1 ← set_focus env c.shell d surface seat serial
    (sh, d2) ← update_active c.shell d1 c.seats
    ok (record c { shell = sh }, d2)

  pub judge_toplevel : Shell sm → World sm → Seat → WlSurface → Outcome (World sm × Verdict)
  judge_toplevel sh d seat surface = do
    ws ← active_workspace sh.workspaces
    elim (sm.window_for_surface ws.space surface all) [
      | none ↦ ok (d, fixup)
      | some w ↦ do (d', stack) ← focus_stack ws.idx d seat; ok (d', verdict_on (last env stack) w)
    ]

  pub judge : Shell sm → World sm → Seat → Option WlSurface → Outcome (World sm × Verdict)
  judge sh d seat none = ok (d, good)
  judge sh d seat (some surface) =
      if not (env.surface_alive surface)
      then ok (d, fixup)
      else if not (env.is_toplevel surface)
      then ok (d, skip)
      else judge_toplevel sh d seat surface

  -- The surface of a toplevel.
  abbrev pub surface_of : Option Window → Option WlSurface
  surface_of none = none
  surface_of (some w) = some (env.wl_surface w)

  -- The branch `if fixup` of `refresh_focus`.
  pub fix_focus : Shell sm → World sm → Seat → Outcome (World sm)
  fix_focus sh d seat = do
    let d1 = remove_popup_grab env d seat
    ws ← active_workspace sh.workspaces
    (d2, stack) ← focus_stack ws.idx d1 seat
    let surface = surface_of (last env stack)
    if env.has_keyboard seat
        then (do
          let (n, d3) = take_serial env d2
          set_active_focus (emit d3 (keyboard_focus seat surface n)) seat surface)
        else ok d2

  pub refresh_seat : Shell sm → World sm → Seat → Outcome (World sm)
  refresh_seat sh d seat = do
    (d', verdict) ← judge sh d seat (get_active_focus d seat)
    elim verdict [ skip ↦ ok d' | good ↦ ok d' | fixup ↦ fix_focus sh d' seat ]

  pub refresh_seats : Shell sm → World sm → List Seat → Outcome (World sm)
  refresh_seats sh d [] = ok d
  refresh_seats sh d (seat ∷ seats) = do d' ← refresh_seat sh d seat; refresh_seats sh d' seats

  -- `CommonState::refresh_focus`
  pub refresh_focus : CommonState sm → World sm → Outcome (CommonState sm × World sm)
  refresh_focus c d = do
    d1 ← refresh_seats c.shell d c.seats
    (sh, d2) ← update_active c.shell d1 c.seats
    ok (record c { shell = sh }, d2)
