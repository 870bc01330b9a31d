-- ===== src/Backend.antt =====
-- src/backend/winit/state.rs and src/backend/renderer/mod.rs: what a frame draws, and from which age
-- of its buffer.
pub mod Frames
pub mod Render
pub mod Winit
use electrum.Prelude.{
  ltb, if◌then◌else◌, Outcome, ok, ◌>>=◌, unwrap, unwrap_or, ℕ, ◌-◌, ◌%◌, Bool, true, false, not,
  Option, none, some, List, [], ◌∷◌,
}
use electrum.Smithay.{Window, Output, Smithay}
use electrum.World.{Env}
use electrum.Workspace.{get_fullscreen}
use electrum.Shell.{Shell, active_workspace}

-- `age_reset` of `WinitState`, and the slot `DidCustomRendering` of its output.
pub record FrameState : Type 0 where
  pub age_reset : ℕ
  pub did_custom_rendering : Option Bool

-- What the backend does in one frame: whether its buffer can be bound and is submitted, and the age
-- of the buffer.
pub record Buffer : Type 0 where
  pub binds : Bool
  pub submits : Bool
  pub buffer_age : Option ℕ

abbrev pub differs : Bool → Bool → Bool
differs true b = not b
differs false b = b

-- What is drawn: one window that fills the output, or the desktop.
pub data Drawn : Type 0 where
  window_alone : Window → Drawn
  whole_desktop : Drawn

module _ {sm : Smithay} (env : Env sm) where
  -- `renderer::render_output`
  unfoldable pub choose_drawn : Shell sm → Output → Outcome Drawn
  choose_drawn sh o = do
    ws ← active_workspace sh.workspaces
    ok (elim (get_fullscreen env ws o) [ some w ↦ window_alone w | none ↦ whole_desktop ])

  -- `will_render_custom`
  pub will_render_custom : Shell sm → Output → Outcome Bool
  will_render_custom sh o = do
    ws ← active_workspace sh.workspaces
    ok (elim (get_fullscreen env ws o) [ some w ↦ true | none ↦ false ])

module _ (sm : Smithay) where
  -- `renderer::needs_buffer_reset`: `swap` returns what was there before.
  pub needs_buffer_reset : Option Bool → Bool → Outcome (Bool × Option Bool)
  needs_buffer_reset slot will = do
    old ← unwrap (sm.insert_if_missing slot false).0
    ok (differs old will, some will)

  -- The age that the frame is drawn from, and the state after it. The age is cut to a `u8`.
  pub take_age : FrameState → Buffer → ℕ × FrameState
  take_age s b =
      if ltb 0 s.age_reset
      then (0, record s { age_reset = s.age_reset - 1 })
      else (unwrap_or b.buffer_age 0 % 256, s)

  -- `WinitState::render_output`; without a buffer it ends early.
  pub render_output : FrameState → Bool → Buffer → Outcome (Option ℕ × FrameState)
  render_output s will b = do
    (reset, slot) ← needs_buffer_reset s.did_custom_rendering will
    let s1 : FrameState = record {
      age_reset = if reset then 3 else s.age_reset;
      did_custom_rendering = slot;
    }
    let (age, s2) = take_age s1 b
    ok (if b.binds then (some age, s2) else (none, s1))

  -- A row of frames; the ages of those that are drawn.
  pub render_all : FrameState → Bool → List Buffer → Outcome (List ℕ × FrameState)
  render_all s will [] = ok ([], s)
  render_all s will (b ∷ bs) = do
    (drawn, s1) ← render_output s will b
    (ages, s2) ← render_all s1 will bs
    ok (elim drawn [ none ↦ ages | some age ↦ age ∷ ages ], s2)
