-- ===== src/State/Clients/Serving.antt =====
-- src/main.rs: the requests that bring surfaces on the screen never make the compositor panic.
use electrum.Prelude.{All, ok, unwrap_or, Returns, ◌≡◌, refl, ap, ◌∙◌, true, List, [], ◌∷◌, ◌++◌}
use electrum.Smithay.{Output, Popup, Smithay}
use electrum.World.{World, Env}
use electrum.Workspace.{Workspace}
use electrum.Shell.{Shell, active_workspace}
use electrum.Shell.Common.{CommonState}
use electrum.Shell.SetFocus.Slots.{SameSlots}
use electrum.State.Requests.{new_toplevel, new_layer_surface}
use electrum.State.Compositor.Total.{Holds, active_output_total, Commits, commit-Holds}
use electrum.State.Popups.{new_layer_popup, reposition_request}
use electrum.State.Popups.Serving.{
  configure_and_track_total, new_popup_total, reposition_request-SameSlots, grab_for_popup_total,
}
use electrum.State.Clients.{
  ClientRequest, creates_window, creates_layer, commits_surface, creates_popup, repositions_popup,
  creates_layer_popup, grabs_popup, handle, dispatch_clients,
}
use electrum.Input.Events.Ready.{Kept, IsReady, IsReady-Kept, Kept-SameDevices}

module _ {sm : Smithay} where
  -- What the handlers rely on: layer surfaces can be mapped, popups configured and tracked.
  pub record Serves (env : Env sm) : Type 0 where
    pub commits : Commits env
    pub tracks : (popup : Popup) → env.tracks_popup popup ≡ true

  Kept-SameSlots :
      (c : CommonState sm) (d d' : World sm)
      → (ws : Workspace sm) × (active_workspace c.shell.workspaces ≡ ok ws)
      → SameSlots d d'
      → Kept c d (c, d')
  Kept-SameSlots c d d' first same =
      Kept-SameDevices c d d' first (λ q. ap (λ s. s.devices) (same q))

  Kept-Holds :
      (env : Env sm) (c : CommonState sm) (d : World sm) (r : Shell sm × World sm)
      → Holds env c.shell d r
      → Kept c d (record c { shell = r.0 }, r.1)
  Kept-Holds env c d r (there, outs, same) = record {
    seats = refl;
    last = refl;
    outputs = outs;
    workspace = there;
    devices = λ q (m, e). (m, ap (λ s. s.devices) (same q) ∙ e);
  }

module _ {sm : Smithay} (o : Output) where
  handle-Kept :
      (env : Env sm) (c : CommonState sm) (d : World sm) (r : ClientRequest)
      → Serves env
      → IsReady o c d
      → Returns (Kept c d) (handle env c d r)
  unfolding handle new_toplevel new_layer_surface new_layer_popup
  handle-Kept env c d (creates_window w) h ready = (
    (new_toplevel env c w, d),
    refl,
    record {
      seats = refl;
      last = refl;
      outputs = refl;
      workspace = ready.workspace;
      devices = λ q m. m;
    },
  )
  handle-Kept env c d (creates_layer l named) h ready =
      let (found, active) = active_output_total env c.shell d c.last_active_seat o ready.outputs in
      (
        (
          record c {
            shell = record c.shell {
              pending_layers =
                  c.shell.pending_layers ++ (l, unwrap_or named found, c.last_active_seat) ∷ [];
            };
          },
          d,
        ),
        rw (handle, new_layer_surface, active) refl,
        record {
          seats = refl;
          last = refl;
          outputs = refl;
          workspace = ready.workspace;
          devices = λ q m. m;
        },
      )
  handle-Kept env c d (commits_surface surface) h ready =
      let (ws, first) = ready.workspace in
      let (r, commits, holds) =
        commit-Holds env c.shell ws d surface o h.commits first ready.outputs in
      ((record c { shell = r.0 }, r.1), rw commits refl, Kept-Holds env c d r holds)
  handle-Kept env c d (creates_popup popup positioner) h ready =
      let (d', creates, same) = new_popup_total env d popup positioner h.tracks in
      ((c, d'), rw creates refl, Kept-SameSlots c d d' ready.workspace same)
  handle-Kept env c d (repositions_popup popup positioner token) h ready =
      let d' = reposition_request env d popup positioner token in
      (
        (c, d'),
        refl,
        Kept-SameSlots c d d' ready.workspace
            (reposition_request-SameSlots env d popup positioner token),
      )
  handle-Kept env c d (creates_layer_popup popup) h ready =
      let (d', creates, same) = configure_and_track_total env d popup h.tracks in
      ((c, d'), rw creates refl, Kept-SameSlots c d d' ready.workspace same)
  handle-Kept env c d (grabs_popup surface seat serial) h ready =
      let (ws, first) = ready.workspace in
      let (r, grabs, holds) = grab_for_popup_total env c ws d surface seat serial first in
      ((record c { shell = r.0 }, r.1), grabs, Kept-Holds env c d r holds)

  pub dispatch_clients-IsReady :
      (rs : List (Env sm × ClientRequest)) (c : CommonState sm) (d : World sm)
      → All (λ e. Serves e.0) rs
      → IsReady o c d
      → Returns (λ r. (r.0.seats ≡ c.seats) × IsReady o r.0 r.1) (dispatch_clients c d rs)
  unfolding dispatch_clients
  dispatch_clients-IsReady [] c d h ready = ((c, d), refl, (refl, ready))
  dispatch_clients-IsReady ((env, r) ∷ rs) c d (h, hs) ready =
      let ((c1, d1), handles, kept) = handle-Kept env c d r h ready in
      let ((c2, d2), goes_on, (seats, ready2)) =
        dispatch_clients-IsReady rs c1 d1 hs (IsReady-Kept o c d (c1, d1) ready kept) in
      ((c2, d2), rw handles goes_on, (seats ∙ kept.seats, ready2))
