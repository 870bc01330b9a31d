-- ===== src/State/Compositor.antt =====
-- src/state/compositor.rs: what a commit of a surface does.
pub mod Commit
pub mod Total
use electrum.Prelude.{
  ◌==◌, if◌then◌else◌, find, Outcome, ok, panic, ◌>>=◌, Bool, true, false, not, ◌&&◌, none, some,
  List, [], ◌∷◌,
}
use electrum.Smithay.{Window, WlSurface, LayerSurface, Popup, Smithay}
use electrum.World.{
  load_buffer, commit_popups, commit_space, configure_popup, arrange_layers, World, Env, emit,
  set_pending,
}
use electrum.Workspace.{Workspace}
use electrum.State.Output.{active_output}
use electrum.Shell.{Shell}
use electrum.Shell.Mapping.{map_pending_window, map_layer}

module _ {sm : Smithay} (env : Env sm) where
  -- `toplevel_ensure_initial_configure`
  pub toplevel_ensure_initial_configure : World sm → Window → Bool × World sm
  toplevel_ensure_initial_configure d w =
      if env.initial_configure_sent (env.wl_surface w)
      then (true, d)
      else (false, set_pending d w (record (d.pending w) { size = none }))

  -- `layer_surface_ensure_inital_configure`
  pub layer_surface_ensure_inital_configure :
      Shell sm → World sm → LayerSurface → Outcome (Bool × Shell sm × World sm)
  layer_surface_ensure_inital_configure sh d l =
      let mapped = map_layer env sh d l in
      if env.initial_configure_sent (env.layer_wl_surface l)
      then ok (true, sh, d)
      else (do (sh', d') ← mapped; ok (false, sh', d'))

  -- `xdg_popup_ensure_initial_configure`
  pub xdg_popup_ensure_initial_configure : World sm → Popup → Outcome (World sm)
  xdg_popup_ensure_initial_configure d popup =
      let configured =
        if env.popup_configures popup then ok (emit d (configure_popup popup)) else panic in
      if env.popup_configure_sent popup then ok d else configured

  pub commit_spaces : List (Workspace sm) → World sm → WlSurface → World sm
  commit_spaces [] d surface = d
  commit_spaces (ws ∷ rest) d surface =
      commit_spaces rest (emit d (commit_space ws.idx surface)) surface

  -- The last part of a commit: "Commit and finalise mappings".
  pub finalise : Shell sm → World sm → WlSurface → World sm
  finalise sh d surface =
      let d' = commit_spaces sh.workspaces (emit d (commit_popups surface)) surface in
      elim (find (λ o. env.has_layer_for_surface o surface) sh.outputs) [
        | none ↦ d'
        | some o ↦ emit d' (arrange_layers o)
      ]

  -- The pending window of the surface, if there is one. Beside the state stands whether the commit
  -- goes on.
  pub commit_window : Shell sm → World sm → WlSurface → Outcome (Bool × Shell sm × World sm)
  commit_window sh d surface = elim (find (λ e. env.wl_surface e.0 == surface) sh.pending_windows) [
    | none ↦ ok (true, sh, d)
    | some (w, seat) ↦
        let (configured, d1) = toplevel_ensure_initial_configure d w in
        let maps = map_pending_window env sh d1 w in
        let found = active_output env sh d1 seat in
        if configured && env.has_buffer surface
        then (do _ ← found; (sh', d2) ← maps; ok (true, sh', d2))
        else ok (false, sh, d1)
  ]

  pub commit_layer : Shell sm → World sm → WlSurface → Outcome (Bool × Shell sm × World sm)
  commit_layer sh d surface =
      elim (find (λ e. env.layer_wl_surface e.0 == surface) sh.pending_layers) [
        | none ↦ ok (true, sh, d)
        | some (l, _, _) ↦ layer_surface_ensure_inital_configure sh d l
      ]

  pub commit_popup : World sm → WlSurface → Outcome (World sm)
  commit_popup d surface = elim (env.find_popup surface) [
    | none ↦ ok d
    | some popup ↦ xdg_popup_ensure_initial_configure d popup
  ]

  -- `CompositorHandler::commit`
  pub commit : Shell sm → World sm → WlSurface → Outcome (Shell sm × World sm)
  commit sh d surface = do
    (goes_on, sh1, d1) ← commit_window sh (emit d (load_buffer surface)) surface
    if not goes_on then ok (sh1, d1) else (do
      (goes_on', sh2, d2) ← commit_layer sh1 d1 surface
      if not goes_on'
          then ok (sh2, d2)
          else (do d3 ← commit_popup d2 surface; ok (sh2, finalise sh2 d3 surface)))
