-- ===== src/State/Requests.antt =====
-- src/state/xdg_shell.rs: the requests of toplevels.
pub mod Moving
pub mod Unmapped
use electrum.Prelude.{
  if◌then◌else◌, Outcome, ok, ◌>>=◌, unwrap, unwrap_or, ℕ, not, Option, none, some, [], ◌∷◌, ◌++◌,
}
use electrum.Smithay.{Window, WlSurface, LayerSurface, Output, Seat, Serial, toplevel, Smithay}
use electrum.World.{pointer, World, Env}
use electrum.Workspace.{
  Workspace, maximize_request, resize_request, fullscreen_request, unfullscreen_request,
  unmaximize_request,
}
use electrum.State.Output.{active_output}
use electrum.Shell.{space_for_window}
use electrum.Shell.Common.{CommonState}
use electrum.Shell.Grab.{put_space_for_window, move_request}

module _ {sm : Smithay} (env : Env sm) where
  -- `check_grab_preconditions`: the number of the grab, if the press that the serial names still
  -- grabs the pointer and went to a surface of the same client.
  unfoldable pub check_grab_preconditions : Seat → WlSurface → Serial → Outcome (Option ℕ)
  check_grab_preconditions seat surface serial = do
    _ ← unwrap (env.pointer seat)
    let started = unwrap (env.grab_start_data seat)
    if not (env.has_grab seat serial) then ok none else (do
      (grab, focus) ← started
      elim focus [
        | none ↦ ok none
        | some f ↦ ok (if env.same_client_as f surface then some grab else none)
      ])

  -- The toplevel of a surface that is on some workspace.
  pub toplevel_of : Workspace sm → WlSurface → Outcome Window
  toplevel_of ws surface = unwrap (sm.window_for_surface ws.space surface toplevel)

  -- `move_request`
  pub request_move :
      CommonState sm → World sm → WlSurface → Seat → Serial → Outcome (CommonState sm × World sm)
  request_move c d surface seat serial = do
    start ← check_grab_preconditions seat surface serial
    elim start [
      | none ↦ ok (c, d)
      | some _ ↦ do
        ws ← unwrap (space_for_window env c.shell.workspaces surface)
        w ← toplevel_of ws surface
        (sh, d') ← move_request env c.shell d w seat serial
        ok (record c { shell = sh }, d')
    ]

  -- `resize_request`
  pub request_resize :
      CommonState sm → World sm → WlSurface → Seat → Serial → ℕ → Outcome (World sm)
  request_resize c d surface seat serial edges = do
    start ← check_grab_preconditions seat surface serial
    elim start [
      | none ↦ ok d
      | some grab ↦ do
        ws ← unwrap (space_for_window env c.shell.workspaces surface)
        w ← toplevel_of ws surface
        resize_request env ws d w seat serial grab edges
    ]

  -- `maximize_request`
  pub request_maximize : CommonState sm → World sm → WlSurface → Outcome (World sm)
  request_maximize c d surface = do
    o ← active_output env c.shell d c.last_active_seat
    elim (space_for_window env c.shell.workspaces surface) [
      | none ↦ ok d
      | some ws ↦ do w ← toplevel_of ws surface; maximize_request env ws d w o
    ]

  -- What a request does to the workspace that shows the surface; nothing if none does.
  abbrev pub on_workspace :
      CommonState sm
      → World sm
      → WlSurface
      → (Workspace sm → Window → Outcome (Workspace sm × World sm))
      → Outcome (CommonState sm × World sm)
  on_workspace c d surface act = elim (space_for_window env c.shell.workspaces surface) [
    | none ↦ ok (c, d)
    | some ws ↦ do
      w ← toplevel_of ws surface
      (ws', d') ← act ws w
      let spaces = put_space_for_window env c.shell.workspaces surface ws'
      ok (record c { shell = record c.shell { workspaces = spaces } }, d')
  ]

  -- `unmaximize_request`
  pub request_unmaximize :
      CommonState sm → World sm → WlSurface → Outcome (CommonState sm × World sm)
  request_unmaximize c d surface = on_workspace c d surface (λ ws w. unmaximize_request env ws d w)

  -- The output of a request: the one that it names, or the active output of the last seat.
  pub output_or_active : CommonState sm → World sm → Option Output → Outcome Output
  output_or_active c d named =
      let active = active_output env c.shell d c.last_active_seat in
      elim named [ none ↦ active | some o ↦ ok o ]

  -- `fullscreen_request`
  pub request_fullscreen :
      CommonState sm → World sm → WlSurface → Option Output → Outcome (CommonState sm × World sm)
  request_fullscreen c d surface named = do
    o ← output_or_active c d named
    on_workspace c d surface (λ ws w. ok (fullscreen_request env ws d w o))

  -- `unfullscreen_request`
  pub request_unfullscreen :
      CommonState sm → World sm → WlSurface → Outcome (CommonState sm × World sm)
  request_unfullscreen c d surface =
      on_workspace c d surface (λ ws w. unfullscreen_request env ws d w)

  -- `new_toplevel`
  unfoldable pub new_toplevel : CommonState sm → Window → CommonState sm
  new_toplevel c w = record c {
    shell = record c.shell {
      pending_windows = c.shell.pending_windows ++ (w, c.last_active_seat) ∷ [];
    };
  }

  -- `new_layer_surface` of src/state/layer_shell.rs. The active output is looked up at any rate.
  unfoldable pub new_layer_surface :
      CommonState sm → World sm → LayerSurface → Option Output → Outcome (CommonState sm)
  new_layer_surface c d l named = do
    active ← active_output env c.shell d c.last_active_seat
    let entry : LayerSurface × Output × Seat = (l, unwrap_or named active, c.last_active_seat)
    ok (record c {
      shell = record c.shell { pending_layers = c.shell.pending_layers ++ entry ∷ [] };
    })
