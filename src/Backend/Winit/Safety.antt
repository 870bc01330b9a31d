-- ===== src/Backend/Winit/Safety.antt =====
-- src/backend/winit/mod.rs: from its start, the compositor runs through every event of its window
-- without a panic, until the window is closed; then it stops.
use electrum.Prelude.{
  ◌==◌, ==-refl, Option-cases, retain, All, ok, Returns, ◌≡◌, refl, sym, ◌∙◌, subst, inl, inr, Bool,
  true, false, not, some, List, [], ◌∷◌,
}
use electrum.Smithay.{Output, Seat, Smithay}
use electrum.Smithay.Geometry.{Size}
use electrum.World.{stop_loop, ping_render, remove_render_source, World, Env, emit}
use electrum.Shell.Outputs.{refresh_outputs_lem, remove_output-eq}
use electrum.Shell.Common.{CommonState}
use electrum.Input.Events.Ready.{
  Kept, IsReady, IsReady-Kept, Kept-SameDevices, slots_of, seat_of_device_total,
}
use electrum.State.EventLoop.{iterate, iterate_without_outputs}
use electrum.Input.Devices.{Device}
use electrum.Input.Events.Total.{Surroundings}
use electrum.Input.Events.Safety.{process_input_event-Kept}
use electrum.Input.Events.Motion.{set_active_output-MovedTo}
use electrum.Backend.{FrameState}
use electrum.Backend.Winit.{
  winit, WinitEvent, resized, focus_changed, input, refresh_window, resize_output,
  process_winit_event, process_all, dispatch_callback,
}

module _ {sm : Smithay} where
  -- What an event of the window finds: the surroundings of the input events, and an output with a
  -- mode.
  pub record Around (o : Output) (seats : List Seat) (env : Env sm) : Type 0 where
    pub input : Surroundings env seats
    pub mode : (m : Size) × (env.current_mode o ≡ some m)

  abbrev pub AllAround : Output → List Seat → List (Env sm × WinitEvent sm) → Type 0
  AllAround o seats = All (λ e. Around o seats e.0)

  module _ (virtual : Device) (o : Output) (s : FrameState) where
    process_winit_event-Kept :
        (env : Env sm) (c : CommonState sm) (d : World sm) (event : WinitEvent sm)
        → Around o c.seats env
        → IsReady o c d
        → Returns (Kept c d) (process_winit_event env virtual (winit o s) c d event)
    unfolding process_winit_event
    process_winit_event-Kept env c d (resized size) around ready =
        let (ws, first) = ready.workspace in
        let (old, mode) = around.mode in
        let (sh', ws', remaps, first', outs) = refresh_outputs_lem env c.shell ws first in
        (
          (record c { shell = sh' }, emit (resize_output env d o old size) ping_render),
          rw mode (rw remaps refl),
          record {
            seats = refl;
            last = refl;
            outputs = outs;
            workspace = (ws', first');
            devices = λ q slots. slots;
          },
        )
    process_winit_event-Kept env c d (focus_changed true) around ready =
        let (found, finds, known) = seat_of_device_total d c.seats virtual (slots_of o c d ready) in
        elim (Option-cases found) [
          | inl e ↦ ((c, d), rw (finds, e) refl, Kept-SameDevices c d d ready.workspace (λ q. refl))
          | inr (seat, e) ↦
              let (d', sets, moved) = set_active_output-MovedTo env d seat o in
              (
                (c, d'),
                rw (finds, e) (rw sets refl),
                Kept-SameDevices c d d' ready.workspace moved.devices,
              )
        ]
    process_winit_event-Kept env c d (focus_changed false) around ready =
        ((c, d), refl, Kept-SameDevices c d d ready.workspace (λ q. refl))
    process_winit_event-Kept env c d (input event) around ready =
        process_input_event-Kept env o c d event around.input ready
    process_winit_event-Kept env c d refresh_window around ready = (
      (c, emit d ping_render),
      refl,
      Kept-SameDevices c d (emit d ping_render) ready.workspace (λ q. refl),
    )

    pub process_all_total :
        (events : List (Env sm × WinitEvent sm)) (c : CommonState sm) (d : World sm)
        → AllAround o c.seats events
        → IsReady o c d
        → Returns
            (λ r. (r.0.seats ≡ c.seats) × IsReady o r.0 r.1)
            (process_all virtual (winit o s) c d events)
    unfolding process_all
    process_all_total [] c d around ready = ((c, d), refl, (refl, ready))
    process_all_total ((env, event) ∷ events) c d (around, later) ready =
        let (r, runs, kept) = process_winit_event-Kept env c d event around ready in
        let (r', goes_on, (same, ready')) =
          process_all_total events r.0 r.1
            (subst (λ seats. AllAround o seats events) (sym kept.seats) later)
            (IsReady-Kept o c d r ready kept) in
        (r', rw runs goes_on, (same ∙ kept.seats, ready'))

    -- Closing the window, after any events, takes the output away without a panic, and the next
    -- iteration of the event loop stops it, whether or not it was asked to.
    pub dispatch_callback-iterate :
        (env later : Env sm) (events : List (Env sm × WinitEvent sm)) (c : CommonState sm)
        (d : World sm) (should_stop : Bool)
        → AllAround o c.seats events
        → IsReady o c d
        → (c' : CommonState sm) × (d' : World sm) × (dispatch_callback env virtual true
              (winit o s)
              c
              d
              events
              true
            ≡ ok (false, c', d'))
          × (c'.shell.outputs ≡ [])
          × (iterate later should_stop c' d' ≡ ok (c', emit d' stop_loop))
    unfolding dispatch_callback retain
    dispatch_callback-iterate env later events c d should_stop around ready =
        let ((c1, d1), runs, (_, ready')) = process_all_total events c d around ready in
        let gone : retain (λ p. not (p == o)) c1.shell.outputs ≡ [] =
          rw ready'.outputs (rw (==-refl o) refl) in
        let sh' = record c1.shell { outputs = retain (λ p. not (p == o)) c1.shell.outputs } in
        let c' = record c1 { shell = sh' } in
        (
          c',
          emit d1 remove_render_source,
          rw (dispatch_callback, runs) (rw (remove_output-eq env c1.shell o) refl),
          gone,
          iterate_without_outputs later should_stop c' (emit d1 remove_render_source) gone,
        )
