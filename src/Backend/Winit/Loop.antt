-- ===== src/Backend/Winit/Loop.antt =====
-- src/main.rs and src/backend/winit/mod.rs: the event loop over the events of the window.
use electrum.Prelude.{
  if◌then◌else◌, Bool-cases, any, All, Outcome, ok, ◌>>=◌, Returns, ◌≡◌, refl, sym, ap, ◌∙◌, subst,
  ◌⊎◌, inl, inr, Bool, true, false, none, some, List, [], ◌∷◌,
}
use electrum.Smithay.{Output, Seat, Smithay}
use electrum.World.{stop_loop, ping_render, ping_events, World, Env, emit}
use electrum.Shell.Common.{CommonState}
use electrum.State.EventLoop.{client_source, iterate}
use electrum.Input.Devices.{Device}
use electrum.Input.Events.Ready.{IsReady, IsReady-Kept}
use electrum.Backend.{FrameState}
use electrum.Backend.Winit.{
  BackendData, winit, WinitEvent, Attempt, draw_frames, init_backend, dispatch_callback,
}
use electrum.Smithay.Geometry.{Size}
use electrum.State.Clients.{ClientRequest, dispatch_clients}
use electrum.State.Clients.Serving.{Serves, dispatch_clients-IsReady}
use electrum.State.Start.{new_state}
use electrum.Backend.Winit.Start.{init_backend-IsReady}
use electrum.Backend.Winit.Safety.{AllAround, process_all_total, dispatch_callback-iterate}
use electrum.Backend.Winit.Iteration.{FrameFinds, iterate-Kept, draw_frames_lem}

module _ (sm : Smithay) where
  -- What one iteration of the loop finds: the events of the window, whether it was closed, the frames
  -- that are drawn, the requests of clients, and whether the display could serve them.
  pub record Batch : Type 1 where
    pub env : Env sm
    pub events : List (Env sm × WinitEvent sm)
    pub closed : Bool
    pub frames : List (Attempt sm)
    pub requests : List (Env sm × ClientRequest)
    pub serves : Bool

module _ {sm : Smithay} where
  -- The loop of `event_loop.run`: the callbacks of the sources of the window, of the frames and of the
  -- display, then the callback of the loop, until that stops the loop. The token is that of the
  -- source of the frames.
  unfoldable pub run_loop :
      Device
      → Bool
      → BackendData
      → CommonState sm
      → World sm
      → List (Batch sm)
      → Outcome (Bool × CommonState sm × World sm)
  run_loop virtual token b c d [] = ok (false, c, d)
  run_loop virtual token b c d (batch ∷ batches) = do
    (token', c1, d1) ← dispatch_callback batch.env virtual token b c d batch.events batch.closed
    (b', d2) ← draw_frames batch.env b c1 d1 (if token' then batch.frames else [])
    (c2, d3) ← dispatch_clients c1 d2 batch.requests
    should_stop ← client_source false batch.serves
    (c3, d4) ← iterate batch.env should_stop c2 d3
    let later = run_loop virtual token' b' c3 d4 batches
    elim c2.shell.outputs [ [] ↦ ok (true, c3, d4) | _ ∷ _ ↦ later ]

  -- The surroundings of an iteration. When the window is closed no request comes.
  pub record GoesWell (o : Output) (seats : List Seat) (batch : Batch sm) : Type 0 where
    pub is_open : batch.env.runtime_open ≡ true
    pub serves : batch.serves ≡ true
    pub around : AllAround o seats batch.events
    pub commits : All (λ e. Serves e.0) batch.requests
    pub finds : All (FrameFinds batch.env o) batch.frames
    pub calm : batch.closed ≡ true → batch.requests ≡ []

  module _ (virtual : Device) (o : Output) where
    -- While the runtime's channel is open, the loop runs through any events of the window and any
    -- requests that bring surfaces on the screen without a panic. It is stopped in the iteration in which the window is
    -- closed, and otherwise goes on, ready for more.
    pub run_loop-closed :
        (batches : List (Batch sm)) (s : FrameState) (c : CommonState sm) (d : World sm)
        → All (GoesWell o c.seats) batches
        → IsReady o c d
        → Returns
            (λ r. (r.0 ≡ any (λ batch. batch.closed) batches) × ((r.0 ≡ true) ⊎ IsReady o r.1 r.2))
            (run_loop virtual true (winit o s) c d batches)
    unfolding run_loop dispatch_callback any draw_frames dispatch_clients
    run_loop-closed [] s c d well ready = ((false, c, d), refl, (refl, inr ready))
    run_loop-closed (batch ∷ batches) s c d (goes, well) ready = elim (Bool-cases batch.closed) [
      | inl e ↦
          let (c', d', closes, gone, stops) =
            dispatch_callback-iterate virtual o s batch.env batch.env batch.events c d false
              goes.around ready in
          (
            (true, c', emit d' stop_loop),
            rw (e, closes) (rw (goes.calm e, goes.serves) (rw (stops, gone) refl)),
            (rw e refl, inl refl),
          )
      | inr e ↦
          let ((c1, d1), runs, (seats1, ready1)) =
            process_all_total virtual o s batch.events c d goes.around ready in
          let (ws1, first1) = ready1.workspace in
          let (s', d2, draws, same) =
            draw_frames_lem batch.env goes.is_open c1 ws1 o batch.frames s
              (emit (emit d1 ping_events) ping_render) goes.finds first1 in
          let ready2 : IsReady o c1 d2 = record {
            devices =
                λ q k. let (m, f) = ready1.devices q k in (m, ap (λ g. (g q).devices) same ∙ f);
            workspace = ready1.workspace;
            outputs = ready1.outputs;
          } in
          let ((c2, d3), serves, (seats2, ready3)) =
            dispatch_clients-IsReady o batch.requests c1 d2 goes.commits ready2 in
          let ((c3, d4), iterates, kept) = iterate-Kept batch.env goes.is_open o c2 d3 ready3 in
          let ready4 = IsReady-Kept o c2 d3 (c3, d4) ready3 kept in
          let (r, goes_on, (ends, state)) =
            run_loop-closed batches s' c3 d4
              (subst (λ q. All (GoesWell o q) batches) (sym (kept.seats ∙ seats2 ∙ seats1)) well)
              ready4 in
          (
            r,
            rw (e, runs)
                (rw draws (rw serves (rw goes.serves (rw iterates (rw ready3.outputs goes_on))))),
            (ends ∙ rw e refl, state),
          )
    ]

  -- From its start, with a window and a keyboard, the compositor runs through any rows of events of
  -- its window, of frames and of requests that bring surfaces on the screen without a panic, and the
  -- loop is stopped in exactly the iteration in which the window is closed: it has stopped if and only
  -- if some row ends with the closing of the window. The requests are the creations of windows, of
  -- layer surfaces and of popups, the grabs and new places of popups, and the commits; there are no
  -- others, and none in the iteration of the closing.
  -- What is assumed of each iteration is that the runtime's channel is open, that the display has no
  -- I/O error, that layer surfaces can be mapped, popups configured and tracked, that events find the
  -- pointer and the keyboard of the seat, the places of layer surfaces and the mode of the output,
  -- and frames the mode and the places of the layer surfaces in front. Frames may fail.
  pub run_loop-init_backend :
      (env : Env sm) (d : World sm) (seat : Seat) (empty : sm.Space) (o : Output) (size : Size)
      (virtual : Device) (batches : List (Batch sm))
      → env.add_keyboard seat ≡ true
      → All (GoesWell o (seat ∷ [])) batches
      → (c : CommonState sm) × (d1 : World sm) × (s : FrameState) × (c' : CommonState sm)
        × (d2 : World sm) × (new_state env d seat empty ≡ ok (c, d1))
        × (init_backend env none c d1 o (some size) ≡ ok (some (winit o s, c', d2)))
        × Returns
            (λ r. r.0 ≡ any (λ batch. batch.closed) batches)
            (run_loop virtual true (winit o s) c' d2 batches)
  run_loop-init_backend env d seat empty o size virtual batches kb well =
      let (c, d1, s, c', d2, starts, inits, seats, ready) =
        init_backend-IsReady env o d seat empty size kb in
      let (r, runs, (ends, _)) =
        run_loop-closed virtual o batches s c' d2
          (subst (λ q. All (GoesWell o q) batches) (sym seats) well) ready in
      (c, d1, s, c', d2, starts, inits, (r, runs, ends))
