-- ===== src/State/Clients.antt =====
-- src/main.rs: `dispatch_clients`, which hands the requests of clients to the handlers of the state.
-- The requests are those that bring a surface on the screen: the creation of windows, of layer
-- surfaces and of popups, the grabs and the places of popups, and commits.
pub mod Serving
use electrum.Prelude.{Outcome, ok, ◌>>=◌, ℕ, Option, List, [], ◌∷◌}
use electrum.Smithay.{Window, WlSurface, LayerSurface, Output, Seat, Popup, Serial, Smithay}
use electrum.World.{World, Env}
use electrum.Shell.Common.{CommonState}
use electrum.State.Requests.{new_toplevel, new_layer_surface}
use electrum.State.Compositor.{commit}
use electrum.State.Popups.{new_popup, new_layer_popup, reposition_request, grab_for_popup}

pub data ClientRequest : Type 0 where
  creates_window : Window → ClientRequest
  creates_layer : LayerSurface → Option Output → ClientRequest
  commits_surface : WlSurface → ClientRequest
  creates_popup : Popup → ℕ → ClientRequest
  repositions_popup : Popup → ℕ → ℕ → ClientRequest
  creates_layer_popup : Popup → ClientRequest
  grabs_popup : WlSurface → Seat → Serial → ClientRequest

module _ {sm : Smithay} where
  -- The handler of a request.
  unfoldable pub handle :
      Env sm → CommonState sm → World sm → ClientRequest → Outcome (CommonState sm × World sm)
  handle env c d (creates_window w) = ok (new_toplevel env c w, d)
  handle env c d (creates_layer l named) = do c' ← new_layer_surface env c d l named; ok (c', d)
  handle env c d (commits_surface surface) = do
    (sh, d') ← commit env c.shell d surface
    ok (record c { shell = sh }, d')
  handle env c d (creates_popup popup positioner) = do
    d' ← new_popup env d popup positioner
    ok (c, d')
  handle env c d (repositions_popup popup positioner token) =
      ok (c, reposition_request env d popup positioner token)
  handle env c d (creates_layer_popup popup) = do d' ← new_layer_popup env d popup; ok (c, d')
  handle env c d (grabs_popup surface seat serial) = grab_for_popup env c d surface seat serial

  -- The requests of one dispatch, each in its surroundings.
  unfoldable pub dispatch_clients :
      CommonState sm
      → World sm
      → List (Env sm × ClientRequest)
      → Outcome (CommonState sm × World sm)
  dispatch_clients c d [] = ok (c, d)
  dispatch_clients c d ((env, r) ∷ rs) = do (c', d') ← handle env c d r; dispatch_clients c' d' rs
