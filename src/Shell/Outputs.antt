-- ===== src/Shell/Outputs.antt =====
-- src/shell/mod.rs: outputs that come and go.
use electrum.Prelude.{
  ◌==◌, any, retain, ok, ℕ, ◌≡◌, refl, false, not, ◌||◌, List, [], ◌∷◌, ◌++◌, arith,
}
use electrum.Smithay.{Output, has, Smithay}
use electrum.World.{Env}
use electrum.Workspace.{Workspace}
use electrum.Shell.Common.Activation.{active_workspace-set_workspace}
use electrum.Shell.{
  Shell, active_workspace, set_workspace, get_workspace, unmap_old, map_new, remap_output,
  add_output, remove_output, map_outputs, refresh_outputs,
}

has-retain_self : (a : ℕ) (xs : List ℕ) → has (retain (λ x. not (x == a)) xs) a ≡ false
unfolding retain any
has-retain_self a [] = refl
has-retain_self a (x ∷ xs) = ground (arith, has-retain_self a xs)

retain-append_self :
    (a : ℕ) (xs : List ℕ)
    → retain (λ x. not (x == a)) (xs ++ a ∷ []) ≡ retain (λ x. not (x == a)) xs
unfolding retain
retain-append_self a [] = ground arith
retain-append_self a (x ∷ xs) = ground (arith, retain-append_self a xs)

module _ {sm : Smithay} (env : Env sm) where
  -- Removing an output takes it off the list and leaves every workspace as it was: after an output
  -- was added and removed again, the list is as it was without that output, and the space of the
  -- active workspace still has the output.
  pub remove_output-keeps_mapped :
      (sh : Shell sm) (o : Output) (ws : Workspace sm)
      → active_workspace sh.workspaces ≡ ok ws
      → (sh' sh'' : Shell sm) × (ws' : Workspace sm) × (add_output env sh o ≡ ok sh')
        × (remove_output env sh' o ≡ ok sh'')
        × (sh''.outputs ≡ retain (λ p. not (p == o)) sh.outputs)
        × (has sh''.outputs o ≡ false)
        × (active_workspace sh''.workspaces ≡ ok ws')
        × ((q : Output)
            → has (sm.space_outputs ws'.space) q ≡ o == q || has (sm.space_outputs ws.space) q)
  unfolding remove_output remap_output add_output get_workspace set_workspace
  remove_output-keeps_mapped sh o ws first =
      let sh' = record sh {
        outputs = sh.outputs ++ o ∷ [];
        workspaces =
            set_workspace sh.workspaces 0
              (record ws { space = sm.map_output ws.space o (env.current_location o) });
      } in
      (
        sh',
        record sh' { outputs = retain (λ p. not (p == o)) sh'.outputs },
        record ws { space = sm.map_output ws.space o (env.current_location o) },
        ground (arith, first),
        refl,
        retain-append_self o sh.outputs,
        has-retain_self o (sh.outputs ++ o ∷ []),
        ground (arith, first),
        λ q. sm.outputs-map_output ws.space o (env.current_location o) q,
      )

  -- A new output is the last one, and a refresh of the outputs keeps them.
  pub add_output_lem :
      (sh : Shell sm) (ws : Workspace sm) (rest : List (Workspace sm)) (o : Output)
      → sh.workspaces ≡ ws ∷ rest
      → (sh' : Shell sm) × (ws' : Workspace sm) × (add_output env sh o ≡ ok sh')
        × (active_workspace sh'.workspaces ≡ ok ws')
        × (sh'.outputs ≡ sh.outputs ++ o ∷ [])
  unfolding add_output remap_output unmap_old map_new get_workspace set_workspace
  add_output_lem sh ws rest o e =
      let ws' = record ws { space = sm.map_output ws.space o (env.current_location o) } in
      (
        record sh { outputs = sh.outputs ++ o ∷ []; workspaces = ws' ∷ rest },
        ws',
        rw (add_output, e) refl,
        refl,
        refl,
      )

  pub refresh_outputs_lem :
      (sh : Shell sm) (ws : Workspace sm)
      → active_workspace sh.workspaces ≡ ok ws
      → (sh' : Shell sm) × (ws' : Workspace sm) × (refresh_outputs env sh ≡ ok sh')
        × (active_workspace sh'.workspaces ≡ ok ws')
        × (sh'.outputs ≡ sh.outputs)
  unfolding refresh_outputs
  refresh_outputs_lem sh ws first =
      let ws' = record ws { space = map_outputs env sh.outputs ws.space } in
      (
        record sh { workspaces = set_workspace sh.workspaces 0 ws' },
        ws',
        rw (refresh_outputs, first) refl,
        active_workspace-set_workspace env sh.workspaces ws ws' first,
        refl,
      )

  pub remove_output-eq :
      (sh : Shell sm) (o : Output)
      → remove_output env sh o ≡ ok (record sh { outputs = retain (λ p. not (p == o)) sh.outputs })
  unfolding remove_output remap_output unmap_old map_new
  remove_output-eq sh o = refl
