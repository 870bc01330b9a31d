-- ===== src/Shell.antt =====
-- src/shell/mod.rs and the `impl Shell`, `impl CommonState` of src/shell/focus.rs: the shell over
-- its workspaces, the outputs, and where the keyboard focus goes.
pub mod Common
pub mod Outputs
pub mod SetFocus
pub mod Grab
pub mod Mapping
use electrum.Prelude.{
  ◌==◌, if◌then◌else◌, retain, Outcome, ok, panic, ◌>>=◌, unwrap, ℕ, zero, suc, Bool, false, not,
  Option, none, some, List, [], ◌∷◌, ◌++◌,
}
use electrum.Smithay.{Window, WlSurface, LayerSurface, Output, Seat, Serial, all, Smithay}
use electrum.Smithay.Geometry.{Point}
use electrum.World.{keyboard_focus, World, Env, emit}
use electrum.Workspace.{Workspace}
use electrum.Focus.{last, append, put_stack, focus_stack_mut, set_active_focus, remove_popup_grab}
use electrum.World.{Capability}

module _ (sm : Smithay) where
  pub record Shell : Type 0 where
    pub workspaces : List (Workspace sm)
    pub outputs : List Output
    pub pending_windows : List (Window × Seat)
    pub pending_layers : List (LayerSurface × Output × Seat)

-- `Some(window) == focus_stack.last().as_ref()`
abbrev pub is_last : Window → Option Window → Bool
is_last w none = false
is_last w (some v) = v == w

module _ {sm : Smithay} where
  -- `&mut self.workspaces[0]` and `self.workspaces.get(0).unwrap()`
  abbrev pub active_workspace : List (Workspace sm) → Outcome (Workspace sm)
  active_workspace [] = panic
  active_workspace (ws ∷ rest) = ok ws

  -- A write through a reference to `workspaces[i]`, for an index in range.
  unfoldable pub set_workspace : List (Workspace sm) → ℕ → Workspace sm → List (Workspace sm)
  set_workspace [] i ws = []
  set_workspace (_ ∷ rest) zero ws = ws ∷ rest
  set_workspace (w ∷ rest) (suc i) ws = w ∷ set_workspace rest i ws

  pub get_workspace : List (Workspace sm) → ℕ → Outcome (Workspace sm)
  get_workspace [] i = panic
  get_workspace (ws ∷ rest) zero = ok ws
  get_workspace (_ ∷ rest) (suc i) = get_workspace rest i

  -- `remap_output`
  pub unmap_old : List (Workspace sm) → Output → Option ℕ → Outcome (List (Workspace sm))
  unmap_old spaces o none = ok spaces
  unmap_old spaces o (some i) = do
    ws ← get_workspace spaces i
    ok (set_workspace spaces i (record ws { space = sm.unmap_output ws.space o }))

  pub map_new :
      List (Workspace sm) → Output → Option ℕ → Option Point → Outcome (List (Workspace sm))
  map_new spaces o none pos = ok spaces
  map_new spaces o (some i) pos = do
    ws ← get_workspace spaces i
    p ← unwrap pos
    ok (set_workspace spaces i (record ws { space = sm.map_output ws.space o p }))

  pub remap_output :
      List (Workspace sm)
      → Output
      → Option ℕ
      → Option ℕ
      → Option Point
      → Outcome (List (Workspace sm))
  unfolding unmap_old map_new
  remap_output spaces o old new pos = do spaces' ← unmap_old spaces o old; map_new spaces' o new pos

  module _ (env : Env sm) where
    pub add_output : Shell sm → Output → Outcome (Shell sm)
    add_output sh o = do
      spaces ← remap_output sh.workspaces o none (some 0) (some (env.current_location o))
      ok (record sh { outputs = sh.outputs ++ o ∷ []; workspaces = spaces })

    pub remove_output : Shell sm → Output → Outcome (Shell sm)
    remove_output sh o = do
      spaces ← remap_output sh.workspaces o none none none
      ok (record sh { outputs = retain (λ p. not (p == o)) sh.outputs; workspaces = spaces })

    abbrev pub map_outputs : List Output → sm.Space → sm.Space
    map_outputs [] s = s
    map_outputs (o ∷ os) s = map_outputs os (sm.map_output s o (env.current_location o))

    pub refresh_outputs : Shell sm → Outcome (Shell sm)
    refresh_outputs sh = do
      ws ← active_workspace sh.workspaces
      ok (record sh {
        workspaces =
            set_workspace sh.workspaces 0 (record ws { space = map_outputs sh.outputs ws.space });
      })

    -- `space_for_window_mut`
    unfoldable pub space_for_window : List (Workspace sm) → WlSurface → Option (Workspace sm)
    space_for_window [] s = none
    space_for_window (ws ∷ rest) s = elim (sm.window_for_surface ws.space s all) [
      | none ↦ space_for_window rest s
      | some _ ↦ some ws
    ]

    -- "update FocusStack and notify layouts about new focus (if any window)"
    unfoldable pub push_focus : Workspace sm → World sm → Window → Seat → Outcome (World sm)
    push_focus ws d w seat = do
      (d', stack) ← focus_stack_mut ws.idx d seat
      if is_last w (last env stack) then ok d' else (do
        d'' ← put_stack ws.idx d' seat (append env stack w)
        ok (remove_popup_grab env d'' seat))

    unfoldable pub focus_window : Shell sm → World sm → Option WlSurface → Seat → Outcome (World sm)
    focus_window sh d none seat = ok d
    focus_window sh d (some surface) seat = elim (space_for_window sh.workspaces surface) [
      | none ↦ ok d
      | some ws ↦ elim (sm.window_for_surface ws.space surface all) [
        | none ↦ ok d
        | some w ↦ push_focus ws d w seat
      ]
    ]

    -- `SERIAL_COUNTER.next_serial()`
    abbrev pub take_serial : World sm → Serial × World sm
    take_serial d = let n = sm.next_serial d.serial in (n, record d { serial = n })

    -- `serial.unwrap_or_else(|| SERIAL_COUNTER.next_serial())`
    abbrev pub serial_or_next : World sm → Option Serial → Serial × World sm
    serial_or_next d none = take_serial d
    serial_or_next d (some n) = (n, d)

    -- `Shell::set_focus`
    unfoldable pub set_focus :
        Shell sm → World sm → Option WlSurface → Seat → Option Serial → Outcome (World sm)
    set_focus sh d surface seat serial = do
      d1 ← focus_window sh d surface seat
      if env.has_keyboard seat
          then (do
            d2 ← set_active_focus d1 seat surface
            let (n, d3) = serial_or_next d2 serial
            ok (emit d3 (keyboard_focus seat surface n)))
          else ok d1
