-- ===== src/Workspace.antt =====
-- src/shell/workspace.rs: a workspace, its fullscreen windows, and the requests of clients.
pub mod Fullscreen
pub mod Refresh
pub mod Coherence
use electrum.Layout.{Layout}
use electrum.Prelude.{
  ◌==◌, if◌then◌else◌, any, retain, lookup, insert, values, Outcome, ok, ◌>>=◌, ℕ, String, Bool,
  not, Option, none, some, List, [], ◌∷◌, str_eq,
}
use electrum.Smithay.{Window, Output, Seat, Serial, fullscreen, has, Smithay}
use electrum.Smithay.Geometry.{Size}
use electrum.Prelude.Int.{pos}
use electrum.World.{RuntimeMessage, World, Env, send_message, set_pending}

module _ (sm : Smithay) where
  pub record Workspace : Type 0 where
    pub idx : ℕ
    pub space : sm.Space
    pub fullscreen : List (String × Window)
    pub layer : Layout

  pub new_workspace : ℕ → sm.Space → Workspace
  new_workspace idx empty = record {
    idx = idx;
    space = empty;
    fullscreen = [];
    layer = record { pending_windows = []; windows = [] };
  }

-- `self.fullscreen.values().any(|w| w == window)`
abbrev pub is_fullscreen : List (String × Window) → Window → Bool
is_fullscreen m w = any (λ v. v == w) (values m)

-- `self.fullscreen.retain(|_, w| w != window)`
abbrev pub without : Window → List (String × Window) → List (String × Window)
without w = retain (λ e. not (e.1 == w))

module _ {sm : Smithay} (env : Env sm) where
  unfoldable pub maximize_request : Workspace sm → World sm → Window → Output → Outcome (World sm)
  maximize_request ws d w o =
      if is_fullscreen ws.fullscreen w
      then ok d
      else send_message env d (RuntimeMessage.maximize_request w o)

  unfoldable pub resize_request :
      Workspace sm → World sm → Window → Seat → Serial → ℕ → ℕ → Outcome (World sm)
  resize_request ws d w seat serial start_data edges =
      if is_fullscreen ws.fullscreen w
      then ok d
      else send_message env d (RuntimeMessage.resize_request w seat serial start_data edges)

  -- The size of an output in logical coordinates, as the fullscreen request computes it.
  pub output_size : Output → Size
  output_size o = sm.to_logical_round (mode_size (env.current_mode o)) (env.fractional_scale o)
    where
      mode_size : Option Size → Size
      mode_size none = record { w = pos 0; h = pos 0 }
      mode_size (some m) = m

  unfoldable pub fullscreen_request :
      Workspace sm → World sm → Window → Output → Workspace sm × World sm
  fullscreen_request ws d w o = elim (lookup (env.output_name o) ws.fullscreen) [
    | some _ ↦ (ws, d)
    | none ↦
        let p = d.pending w in
        (
          record ws { fullscreen = insert (env.output_name o) w ws.fullscreen },
          set_pending d w
              (record { states = sm.set_state p.states fullscreen; size = some (output_size o) }),
        )
  ]

  unfoldable pub unfullscreen_request :
      Workspace sm → World sm → Window → Outcome (Workspace sm × World sm)
  unfullscreen_request ws d w =
      if is_fullscreen ws.fullscreen w
      then (do
        let p = d.pending w
        let d' =
            set_pending d w (record { states = sm.unset_state p.states fullscreen; size = none })
        d'' ← send_message env d' (RuntimeMessage.unfullscreen_request w)
        ok (record ws { fullscreen = without w ws.fullscreen }, d''))
      else ok (ws, d)

  unfoldable pub unmaximize_request :
      Workspace sm → World sm → Window → Outcome (Workspace sm × World sm)
  unmaximize_request ws d w =
      if is_fullscreen ws.fullscreen w
      then unfullscreen_request ws d w
      else (do d' ← send_message env d (RuntimeMessage.unmaximize_request w); ok (ws, d'))

  unfoldable pub unfullscreen_all :
      List Window → Workspace sm → World sm → Outcome (Workspace sm × World sm)
  unfullscreen_all [] ws d = ok (ws, d)
  unfullscreen_all (w ∷ dead) ws d = do
    (ws', d') ← unfullscreen_request ws d w
    unfullscreen_all dead ws' d'

  -- `outputs.iter().any(|o| o.name() == **name)`
  unfoldable pub is_connected : List Output → String → Bool
  is_connected outputs name = any (λ o. str_eq (env.output_name o) name) outputs

  -- The windows that are fullscreen on an output which the space does not have.
  unfoldable pub dead_windows : List Output → List (String × Window) → List Window
  dead_windows outputs m = values (retain (λ e. not (is_connected outputs e.0)) m)

  unfoldable pub refresh : Workspace sm → World sm → Outcome (Workspace sm × World sm)
  refresh ws d = do
    let dead = dead_windows (sm.space_outputs ws.space) ws.fullscreen
    (ws', d') ← unfullscreen_all dead ws d
    ok (
      record ws' {
        fullscreen = retain (λ e. env.alive e.1) ws'.fullscreen;
        space = sm.refresh_space ws'.space;
      },
      d',
    )

  unfoldable pub get_fullscreen : Workspace sm → Output → Option Window
  get_fullscreen ws o =
      if has (sm.space_outputs ws.space) o
      then (elim (lookup (env.output_name o) ws.fullscreen) [
        | none ↦ none
        | some w ↦ if env.alive w then some w else none
      ])
      else none

-- What reaches a workspace: requests of clients, and the refresh of the event loop.
pub data Request : Type 0 where
  fullscreens : Window → Output → Request
  unfullscreens unmaximizes : Window → Request
  maximizes : Window → Output → Request
  resizes : Window → Seat → Serial → ℕ → ℕ → Request
  refreshes : Request

module _ {sm : Smithay} where
  unfoldable pub step :
      Env sm → Workspace sm → World sm → Request → Outcome (Workspace sm × World sm)
  step env ws d (fullscreens w o) = ok (fullscreen_request env ws d w o)
  step env ws d (unfullscreens w) = unfullscreen_request env ws d w
  step env ws d (unmaximizes w) = unmaximize_request env ws d w
  step env ws d (maximizes w o) = do d' ← maximize_request env ws d w o; ok (ws, d')
  step env ws d (resizes w seat serial start_data edges) = do
    d' ← resize_request env ws d w seat serial start_data edges
    ok (ws, d')
  step env ws d refreshes = refresh env ws d
