-- ===== src/Shell/Mapping.antt =====
-- src/shell/mod.rs: pending windows and layer surfaces are mapped, and the shell is refreshed.
use electrum.Prelude.{
  ◌==◌, if◌then◌else◌, Outcome, ok, panic, ◌>>=◌, unwrap, Bool, true, false, ◌&&◌, Option, none,
  some, List, [], ◌∷◌,
}
use electrum.Prelude.Int.{pos}
use electrum.Smithay.{Window, LayerSurface, Output, Smithay}
use electrum.World.{map_layer_surface, cleanup_layers, World, Env, emit}
use electrum.World.Layers.{Layer}
use electrum.Workspace.{refresh}
use electrum.Shell.{Shell, active_workspace, set_workspace, set_focus}

-- `iter().position(p)` and `remove(pos)`
unfoldable pub take_first {ℓ} : {A : Type ℓ} → (A → Bool) → List A → Option (A × List A)
take_first p [] = none
take_first p (x ∷ xs) =
    let rest = take_first p xs in
    if p x then some (x, xs) else (elim rest [ none ↦ none | some (y, ys) ↦ some (y, x ∷ ys) ])

-- `matches!(layer, Layer::Top | Layer::Overlay)`
abbrev pub is_front : Layer → Bool
is_front Layer.top = true
is_front Layer.overlay = true
is_front Layer.bottom = false
is_front Layer.background = false

module _ {sm : Smithay} (env : Env sm) where
  -- `Shell::map_window`
  unfoldable pub map_pending_window : Shell sm → World sm → Window → Outcome (Shell sm × World sm)
  map_pending_window sh d window = do
    ((w, seat), pending) ← unwrap (take_first (λ e. e.0 == window) sh.pending_windows)
    ws ← active_workspace sh.workspaces
    let ws' = record ws {
      space = sm.map_window ws.space w (record { x = pos 0; y = pos 0 }) 0 false;
    }
    let sh' = record sh {
      pending_windows = pending;
      workspaces = set_workspace sh.workspaces 0 ws';
    }
    d' ← set_focus env sh' d (some (env.wl_surface w)) seat none
    ok (sh', d')

  -- `Shell::map_layer`
  unfoldable pub map_layer : Shell sm → World sm → LayerSurface → Outcome (Shell sm × World sm)
  map_layer sh d layer_surface = do
    ((l, o, seat), pending) ← unwrap (take_first (λ e. e.0 == layer_surface) sh.pending_layers)
    let sh' = record sh { pending_layers = pending }
    d1 ← if env.maps_layer o l then ok (emit d (map_layer_surface o l)) else panic
    let focused = set_focus env sh' d1 (some (env.layer_wl_surface l)) seat none
    d2 ← if is_front (env.cached_layer l) && env.wants_keyboard l then focused else ok d1
    ok (sh', d2)

  unfoldable pub cleanup_all : List Output → World sm → World sm
  cleanup_all [] d = d
  cleanup_all (o ∷ os) d = cleanup_all os (emit d (cleanup_layers o))

  -- `Shell::refresh`
  unfoldable pub refresh_shell : Shell sm → World sm → Outcome (Shell sm × World sm)
  refresh_shell sh d = do
    ws ← active_workspace sh.workspaces
    (ws', d') ← refresh env ws d
    ok (record sh { workspaces = set_workspace sh.workspaces 0 ws' }, cleanup_all sh.outputs d')
