-- ===== src/Input/Events/Press.antt =====
-- src/input/mod.rs: where the keyboard focus is after a press.
use electrum.Prelude.{ok, ℕ, ◌≡◌, refl, ap, ◌∙◌, true, false, Option, none, some, List, ◌∷◌}
use electrum.Smithay.{WlSurface, Output, Seat, Smithay}
use electrum.World.{PointF, Effect, pointer_button, World, Env, emit}
use electrum.Workspace.{Workspace, get_fullscreen}
use electrum.State.Output.{geometry, active_output}
use electrum.Focus.{get_active_focus}
use electrum.Shell.{active_workspace}
use electrum.Shell.Common.{CommonState, set_common_focus}
use electrum.Shell.Common.Steady.{update_active_lem}
use electrum.Shell.Grab.Drop.{set_focus_told}
use electrum.Input.Under.{focus_under}
use electrum.Input.Under.Owner.{owner_at, focus_under-surface_under}
use electrum.Input.Events.{relative_to, focus_pressed, press_button}
use electrum.Input.Events.Target.{
  LayersAreHit, press_target, owner_at-OwnerIsHit, keyboard_enters-press_target,
}

module _ {sm : Smithay} (env : Env sm) where
  -- A seat with a pointer at a place of its active output, and with a keyboard, neither of which is
  -- grabbed.
  pub record CanPress (d : World sm) (seat : Seat) (p : PointF sm) (o : Output) : Type 0 where
    pub points : env.pointer seat ≡ some p
    pub has_keyboard : env.has_keyboard seat ≡ true
    pub pointer_free : env.pointer_grabbed seat ≡ false
    pub keyboard_free : env.keyboard_grabbed seat ≡ false
    pub active : (d.seat_data seat).active_output ≡ some o

  press_button-focus_under :
      (c : CommonState sm) (ws : Workspace sm) (d : World sm) (seat : Seat) (button : ℕ)
      (p : PointF sm) (o : Output) (target : Option WlSurface)
      → CanPress d seat p o
      → active_workspace c.shell.workspaces ≡ ok ws
      → focus_under env p (relative_to env p o) o (geometry env o) ws ≡ ok target
      → (c' : CommonState sm) × (d' : World sm) × (before : List (Effect sm)) × (press_button env c
            d seat button true
          ≡ ok (c', d'))
        × (get_active_focus d' seat ≡ target)
        × (d'.effects ≡ pointer_button button true (sm.next_serial d.serial) ∷ before)
  unfolding press_button focus_pressed active_output get_active_focus set_common_focus
  press_button-focus_under c ws d seat button p o target can first under =
      let n = sm.next_serial d.serial in
      let d1 = record d { serial = n } in
      let (d2, focuses, focus, _) =
        set_focus_told env c.shell d1 target seat (some n) can.has_keyboard in
      let (sh', d3, updates, same) = update_active_lem env c.shell ws d2 c.seats first in
      (
        record c { shell = sh' },
        emit d3 (pointer_button button true n),
        d3.effects,
        rw (press_button, can.points, can.pointer_free, can.keyboard_free)
            (rw (can.has_keyboard, focus_pressed, active_output, can.active, first)
              (rw (under, set_common_focus, focuses) (rw updates refl))),
        same seat ∙ focus,
        refl,
      )

  -- A press on a seat with a keyboard, where neither the pointer nor the keyboard is grabbed and no
  -- window is fullscreen, on an output at the origin, focuses what owns the place of the pointer,
  -- searched from front to back: the toplevel of a window, whichever of its surfaces was hit, a layer
  -- surface if it takes the keyboard, and otherwise nothing. Then the button is passed on. What is
  -- assumed of layer surfaces is that one which is found at a point has a place and is hit there.
  pub press_button-focuses :
      (c : CommonState sm) (ws : Workspace sm) (d : World sm) (seat : Seat) (button : ℕ)
      (p : PointF sm) (o : Output)
      → CanPress d seat p o
      → active_workspace c.shell.workspaces ≡ ok ws
      → get_fullscreen env ws o ≡ none
      → relative_to env p o ≡ p
      → LayersAreHit env
      → (c' : CommonState sm) × (d' : World sm) × (before : List (Effect sm)) × (press_button env c
            d seat button true
          ≡ ok (c', d'))
        × (get_active_focus d' seat ≡ press_target env (owner_at env o ws p))
        × (d'.effects ≡ pointer_button button true (sm.next_serial d.serial) ∷ before)
  press_button-focuses c ws d seat button p o can first windowed same layers =
      let relative = relative_to env p o in
      let owner = owner_at env o ws relative in
      let under =
        (focus_under-surface_under env p relative o (geometry env o) ws windowed same).1
        ∙ keyboard_enters-press_target env p o owner
            (owner_at-OwnerIsHit env o ws relative layers) in
      press_button-focus_under c ws d seat button p o (press_target env (owner_at env o ws p)) can
        first (under ∙ ap (λ q. ok (press_target env (owner_at env o ws q))) same)
