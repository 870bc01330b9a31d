-- ===== src/Backend/Winit/Iteration.antt =====
-- src/main.rs and src/backend/winit/mod.rs: what an iteration of the loop leaves as it is.
use electrum.Prelude.{
  if◌then◌else◌, Bool-cases, Option-cases, All, ok, Returns, ℕ, ◌≡◌, refl, ap, ◌∙◌, inl, inr, Bool,
  true, false, Option, none, some, List, [], ◌∷◌, arith,
}
use electrum.Smithay.{LayerSurface, Output, Smithay}
use electrum.Smithay.Geometry.{Size, Rectangle}
use electrum.World.Layers.{Layer}
use electrum.Backend.Render.{DrawCall, cursor_custom_elements, render_window, render_frame}
use electrum.Backend.Render.Order.{render_window-until_failure}
use electrum.World.{cleanup_layers, flush_clients, World, Env, emit}
use electrum.Workspace.{Workspace, get_fullscreen, refreshes, step}
use electrum.Shell.{Shell, active_workspace, set_workspace}
use electrum.Shell.Common.{CommonState}
use electrum.Shell.Common.Activation.{active_workspace-set_workspace}
use electrum.Shell.Common.Running.{refresh_focus-SameSlots}
use electrum.Shell.Mapping.{cleanup_all, refresh_shell}
use electrum.State.EventLoop.{refresh_all, iterate, iterate_with_outputs}
use electrum.Runtime.Posting.{step-Posts}
use electrum.Input.Events.Ready.{Kept, IsReady}
use electrum.Backend.Frames.{pending_resets, settled, render_output-eq}
use electrum.Backend.{FrameState, Buffer, choose_drawn, will_render_custom, take_age}
use electrum.Backend.Winit.{
  winit, Attempt, is_drawn, after_frame, draw_frame, render_callback, draw_frames,
}

module _ {sm : Smithay} where
  -- What a frame finds: an output with a mode, and places of the layer surfaces in front.
  pub record FrameFinds (env : Env sm) (o : Output) (frame : Attempt sm) : Type 0 where
    pub mode : (m : Size) × (env.current_mode o ≡ some m)
    pub geo : LayerSurface → Rectangle
    pub places :
        All (λ l. env.layer_geometry o l ≡ some (geo l)) (frame.renderer.layers_on o Layer.overlay)

  cleanup_all-seats :
      (env : Env sm) (os : List Output) (d : World sm)
      → (cleanup_all env os d).seat_data ≡ d.seat_data
  unfolding cleanup_all
  cleanup_all-seats env [] d = refl
  cleanup_all-seats env (o ∷ os) d = cleanup_all-seats env os (emit d (cleanup_layers o))

  module _ (env : Env sm) (is_open : env.runtime_open ≡ true) where
    refresh_shell_lem :
        (sh : Shell sm) (ws : Workspace sm) (d : World sm)
        → active_workspace sh.workspaces ≡ ok ws
        → (sh' : Shell sm) × (ws' : Workspace sm) × (d' : World sm) × (refresh_shell env sh d
            ≡ ok (sh', d'))
          × (active_workspace sh'.workspaces ≡ ok ws')
          × (sh'.outputs ≡ sh.outputs)
          × (d'.seat_data ≡ d.seat_data)
    unfolding refresh_shell step
    refresh_shell_lem sh ws d first =
        let ((ws', d1), runs, (seats, _)) = step-Posts env is_open ws d refreshes in
        (
          record sh { workspaces = set_workspace sh.workspaces 0 ws' },
          ws',
          cleanup_all env sh.outputs d1,
          rw first (rw runs refl),
          active_workspace-set_workspace env sh.workspaces ws ws' first,
          refl,
          cleanup_all-seats env sh.outputs d1 ∙ seats,
        )

    -- An iteration over a shell with outputs refreshes the shell and the focus without a panic.
    pub iterate-Kept :
        (o : Output) (c : CommonState sm) (d : World sm)
        → IsReady o c d
        → Returns (Kept c d) (iterate env false c d)
    unfolding refresh_all
    iterate-Kept o c d ready =
        let (ws, first) = ready.workspace in
        let (sh1, ws1, d1, refreshed, first1, outs1, seats) =
          refresh_shell_lem c.shell ws d first in
        let (sh2, ws2, d2, focused_on, first2, outs2, same) =
          refresh_focus-SameSlots env (record c { shell = sh1 }) ws1 d1 first1 in
        (
          (record c { shell = sh2 }, emit d2 flush_clients),
          iterate_with_outputs env false c d o [] ready.outputs ∙ rw refreshed (rw focused_on refl),
          record {
            seats = refl;
            last = refl;
            outputs = outs2 ∙ outs1;
            workspace = (ws2, first2);
            devices =
                λ q (m, e). (m, ap (λ s. s.devices) (same q) ∙ ap (λ f. (f q).devices) seats ∙ e);
          },
        )

    after_frame-seats :
        (d : World sm) (buffer : Buffer) (drawn : Bool)
        → (after_frame env d buffer drawn).seat_data ≡ d.seat_data
    after_frame-seats d buffer drawn = ground arith

    render_frame_total :
        (c : CommonState sm) (ws : Workspace sm) (o : Output) (age : ℕ) (frame : Attempt sm)
        → FrameFinds env o frame
        → active_workspace c.shell.workspaces ≡ ok ws
        → (f : List (DrawCall sm) × Option (List Rectangle)) × (render_frame env frame.renderer
              c.shell o age frame.begins
            ≡ ok f)
    unfolding render_frame choose_drawn render_window
    render_frame_total c ws o age frame finds first =
        elim (Option-cases (get_fullscreen env ws o)) [
          | inl e ↦ (
            ([], frame.renderer.render_space o age cursor_custom_elements),
            rw (render_frame, choose_drawn, first) (rw e refl),
          )
          | inr (w, e) ↦
              let (mode, has_mode) = finds.mode in
              let (shown, draws) : (f : List (DrawCall sm) × Option (List Rectangle))
                  × (render_window env frame.renderer o w true ≡ ok f) =
                (
                  _,
                  render_window-until_failure env frame.renderer o finds.geo mode w has_mode
                      finds.places,
                ) in
              elim (Bool-cases frame.begins) [
                | inl f ↦ (shown, rw (render_frame, choose_drawn, first) (rw (e, f) draws))
                | inr f ↦ (
                  ([], none),
                  rw (render_frame, choose_drawn, first)
                      (rw (e, f) (rw (render_window, has_mode) refl)),
                )
              ]
        ]

    draw_frame_total :
        (c : CommonState sm) (ws : Workspace sm) (o : Output) (age : Option ℕ) (frame : Attempt sm)
        → FrameFinds env o frame
        → active_workspace c.shell.workspaces ≡ ok ws
        → (drawn : Bool) × (draw_frame env c o age frame ≡ ok drawn)
    unfolding draw_frame
    draw_frame_total c ws o none frame finds first = (false, refl)
    draw_frame_total c ws o (some age) frame finds first =
        let ((calls, damage), draws) = render_frame_total c ws o age frame finds first in
        (is_drawn damage, rw draws refl)

    -- So does a row of frames.
    pub draw_frames_lem :
        (c : CommonState sm) (ws : Workspace sm) (o : Output) (frames : List (Attempt sm))
        (s : FrameState) (d : World sm)
        → All (FrameFinds env o) frames
        → active_workspace c.shell.workspaces ≡ ok ws
        → (s' : FrameState) × (d' : World sm) × (draw_frames env (winit o s) c d frames
            ≡ ok (winit o s', d'))
          × (d'.seat_data ≡ d.seat_data)
    unfolding draw_frames render_callback will_render_custom
    draw_frames_lem c ws o [] s d finds first = (s, d, refl, refl)
    draw_frames_lem c ws o (frame ∷ frames) s d (finds, later) first =
        let buffer = frame.buffer in
        let will : Bool = elim (get_fullscreen env ws o) [ some w ↦ true | none ↦ false ] in
        let s1 = settled sm (pending_resets sm s will) will in
        let shown : Option ℕ × FrameState =
          if buffer.binds
          then (some (take_age sm s1 buffer).0, (take_age sm s1 buffer).1)
          else (none, s1) in
        let (drawn, draws) = draw_frame_total c ws o shown.0 frame finds first in
        let (s', d', goes_on, same) =
          draw_frames_lem c ws o frames shown.1 (after_frame env d buffer drawn) later first in
        (
          s',
          d',
          rw (draw_frames, render_callback, will_render_custom, first)
              (rw (render_output-eq sm s will buffer) (rw draws goes_on)),
          same ∙ after_frame-seats d buffer drawn,
        )
