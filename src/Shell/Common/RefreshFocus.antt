-- ===== src/Shell/Common/RefreshFocus.antt =====
-- src/shell/focus.rs: `refresh_focus`, seat by seat.
use electrum.Prelude.{
  ◌==◌, ==_iff, ==-refl, Bool-cases, Option-cases, ok, ℕ, ◌≡◌, refl, ap, ◌∙◌, ◌≢◌, ◌⊎◌, inl, inr,
  true, false, Option, none, some, List, ◌∷◌, arith,
}
use electrum.Smithay.{Window, WlSurface, Seat, Serial, all, Smithay}
use electrum.World.{Effect, keyboard_focus, World, Env, emit, set_seat}
use electrum.Workspace.{Workspace}
use electrum.Focus.{last, get_active_focus, remove_popup_grab}
use electrum.Focus.Data.{
  stack_at, top, focus_stack-eq, set_active_focus-eq, stack_at_of_eq, stack_at-remove_popup_grab,
  touched, stack_at-touched, get_active_focus-touched,
}
use electrum.Shell.{Shell, active_workspace, take_serial}
use electrum.Shell.Common.{
  fixup, verdict_on, judge_toplevel, judge, surface_of, fix_focus, refresh_seat,
}

module _ {sm : Smithay} (env : Env sm) where
  -- The focus of a seat is settled on a window: the focused surface is alive and shows the window
  -- in the active workspace, where it is on top of the seat's stack.
  pub record IsSettled (ws : Workspace sm) (d : World sm) (seat : Seat) (surface : WlSurface)
      (w : Window) : Type 0 where
    pub focus : get_active_focus d seat ≡ some surface
    pub lives : env.surface_alive surface ≡ true
    pub is_window : env.is_toplevel surface ≡ true
    pub shows : sm.window_for_surface ws.space surface all ≡ some w
    pub on_top : top env d seat ws.idx ≡ some w

  module _ (sh : Shell sm) (ws : Workspace sm)
      (first : active_workspace sh.workspaces ≡ ok ws) where
    -- A settled seat is left alone: no call goes out, and its focus stays settled.
    pub refresh_seat-IsSettled :
        (d : World sm) (seat : Seat) (surface : WlSurface) (w : Window)
        → IsSettled ws d seat surface w
        → (d' : World sm) × (refresh_seat env sh d seat ≡ ok d')
          × (d'.effects ≡ d.effects)
          × IsSettled ws d' seat surface w
    unfolding refresh_seat judge judge_toplevel verdict_on
    refresh_seat-IsSettled d seat surface w v = (
      touched d seat,
      rw (v.focus, refresh_seat, judge)
          (rw (v.lives, v.is_window, judge_toplevel)
            (rw first
              (rw v.shows (rw (focus_stack-eq ws.idx d seat) (rw v.on_top (rw (==-refl w))))))),
      refl,
      record {
        focus = get_active_focus-touched d seat seat ∙ v.focus;
        lives = v.lives;
        is_window = v.is_window;
        shows = v.shows;
        on_top = ap (last env) (stack_at-touched d seat seat ws.idx) ∙ v.on_top;
      },
    )

    -- The shared state after a fixup on a seat with a keyboard.
    abbrev fixed : World sm → Seat → World sm
    fixed d seat =
        let surface = surface_of env (top env d seat ws.idx) in
        let (n, d3) = take_serial env (touched (remove_popup_grab env d seat) seat) in
        let d4 = emit d3 (keyboard_focus seat surface n) in
        set_seat d4 seat (record (d4.seat_data seat) { active_focus = some surface })

    fix_focus-eq :
        (d : World sm) (seat : Seat)
        → env.has_keyboard seat ≡ true
        → fix_focus env sh d seat ≡ ok (fixed d seat)
    unfolding fix_focus
    fix_focus-eq d seat kb =
        let d1 = remove_popup_grab env d seat in
        rw first (
          rw (focus_stack-eq ws.idx d1 seat) (
            rw kb (
              rw (ap (last env) (stack_at-remove_popup_grab env d seat seat ws.idx))
                (set_active_focus-eq _ seat _))))

    fixed-focus :
        (d : World sm) (seat : Seat)
        → get_active_focus (fixed d seat) seat ≡ surface_of env (top env d seat ws.idx)
    unfolding get_active_focus
    fixed-focus d seat = ground arith

    fixed-focus_stacks :
        (d : World sm) (seat q : Seat)
        → ((fixed d seat).seat_data q).focus_stacks
          ≡ ((touched (remove_popup_grab env d seat) seat).seat_data q).focus_stacks
    fixed-focus_stacks d seat q = ground arith

    fixed-stack_at :
        (d : World sm) (seat q : Seat) (j : ℕ) → stack_at (fixed d seat) q j ≡ stack_at d q j
    fixed-stack_at d seat q j =
        stack_at_of_eq (touched (remove_popup_grab env d seat) seat) (fixed d seat) q j
          (fixed-focus_stacks d seat q)
        ∙ (stack_at-touched (remove_popup_grab env d seat) seat q j
            ∙ stack_at-remove_popup_grab env d seat q j)

    -- The focused surface has died, or it is a toplevel whose window is not on top of the seat's
    -- stack of the active workspace (for one, because the workspace does not have it).
    abbrev pub IsLost : World sm → Seat → WlSurface → Type 0
    IsLost d seat surface =
        (env.surface_alive surface ≡ false)
        ⊎ ((env.surface_alive surface ≡ true)
            × (env.is_toplevel surface ≡ true)
            × ((w : Window)
                → sm.window_for_surface ws.space surface all ≡ some w
                → top env d seat ws.idx ≢ some w))

    verdict_on-fixup : (o : Option Window) (w : Window) → o ≢ some w → verdict_on o w ≡ fixup
    unfolding verdict_on
    verdict_on-fixup none w h = refl
    verdict_on-fixup (some v) w h = elim (Bool-cases (v == w)) [
      | inl e ↦ absurd (h (ap some ((==_iff v w).0 e)))
      | inr e ↦ rw e
    ]

    -- `focus_stack` may have been asked for by then.
    judge-fixup :
        (d : World sm) (seat : Seat) (surface : WlSurface)
        → IsLost d seat surface
        → (d0 : World sm) × (judge env sh d seat (some surface) ≡ ok (d0, fixup))
          × ((d0 ≡ d) ⊎ (d0 ≡ touched d seat))
    unfolding judge judge_toplevel
    judge-fixup d seat surface (inl dead) = (d, rw dead, inl refl)
    judge-fixup d seat surface (inr (lives, is_window, lost)) =
        elim (Option-cases (sm.window_for_surface ws.space surface all)) [
          | inl gone ↦ (d, rw (lives, is_window, judge_toplevel) (rw first (rw gone)), inl refl)
          | inr (w, shows) ↦ (
            touched d seat,
            rw (lives, is_window, judge_toplevel)
                (rw first (
                  rw shows (
                    rw (focus_stack-eq ws.idx d seat)
                      (rw (verdict_on-fixup (top env d seat ws.idx) w (lost w shows)))))),
            inr refl,
          )
        ]

    same_stacks :
        (d d0 : World sm) (seat q : Seat) (j : ℕ)
        → (d0 ≡ d) ⊎ (d0 ≡ touched d seat)
        → stack_at d0 q j ≡ stack_at d q j
    same_stacks d d0 seat q j (inl e) = rw e
    same_stacks d d0 seat q j (inr e) = rw e (stack_at-touched d seat q j)

    -- When a seat with a keyboard has lost the window that it was focused on, the focus moves to the
    -- window that is on top of its stack of the active workspace, or to nothing if there is none:
    -- the seat's focused surface and the last call that goes out say so, and the stacks of all seats
    -- are as before.
    pub refresh_seat-repairs :
        (d : World sm) (seat : Seat) (surface : WlSurface)
        → env.has_keyboard seat ≡ true
        → get_active_focus d seat ≡ some surface
        → IsLost d seat surface
        → let next = surface_of env (top env d seat ws.idx) in
          (d' : World sm) × (n : Serial) × (before : List (Effect sm)) × (refresh_seat env sh d seat
            ≡ ok d')
          × (get_active_focus d' seat ≡ next)
          × (d'.effects ≡ keyboard_focus seat next n ∷ before)
          × ((q : Seat) (j : ℕ) → stack_at d' q j ≡ stack_at d q j)
    unfolding refresh_seat
    refresh_seat-repairs d seat surface kb focus lost =
        let (d0, bad, same) = judge-fixup d seat surface lost in
        let e = ap (λ s. surface_of env (last env s)) (same_stacks d d0 seat seat ws.idx same) in
        let n = (take_serial env (touched (remove_popup_grab env d0 seat) seat)).0 in
        (
          fixed d0 seat,
          n,
          (remove_popup_grab env d0 seat).effects,
          rw focus (rw bad (fix_focus-eq d0 seat kb)),
          fixed-focus d0 seat ∙ e,
          ap (λ s. keyboard_focus seat s n ∷ (remove_popup_grab env d0 seat).effects) e,
          λ q j. fixed-stack_at d0 seat q j ∙ same_stacks d d0 seat q j same,
        )
