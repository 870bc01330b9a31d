-- ===== src/Backend/Winit.antt =====
-- src/backend/winit/mod.rs and src/backend/mod.rs: the backend that runs in a window, its start and
-- its events.
pub mod Start
pub mod Safety
pub mod Iteration
pub mod Loop
use electrum.Prelude.{
  if◌then◌else◌, Outcome, ok, panic, ◌>>=◌, unwrap, ℕ, String, Bool, true, false, not, ◌&&◌, ◌||◌,
  Option, none, some, List, [], ◌∷◌, str_eq,
}
use electrum.Smithay.{Output, Smithay}
use electrum.Smithay.Geometry.{Size, Rectangle}
use electrum.World.{
  arrange_layers, create_global, add_mode, delete_mode, set_preferred, change_mode, send_frames,
  submit_frame, ping_render, ping_events, remove_render_source, World, Env, emit,
}
use electrum.Shell.{add_output, remove_output, refresh_outputs}
use electrum.Shell.Common.{CommonState}
use electrum.State.Output.{set_active_output}
use electrum.Input.Devices.{Device}
use electrum.Input.Events.{InputEvent, seat_of_device, process_input_event}
use electrum.Backend.{FrameState, Buffer, will_render_custom, render_output}
use electrum.Backend.Render.{Renderer, render_frame}

-- `BackendData`, with the output of the `WinitState`.
pub data BackendData : Type 0 where
  winit : Output → FrameState → BackendData
  unset : BackendData

-- `BackendData::winit`
abbrev pub winit_of : BackendData → Outcome (Output × FrameState)
winit_of (winit o s) = ok (o, s)
winit_of unset = panic

-- `DmabufHandler::dmabuf_imported`, by whether the renderer imports the buffer.
pub dmabuf_imported : BackendData → Bool → Outcome Bool
dmabuf_imported (winit o s) imports = ok imports
dmabuf_imported unset imports = panic

module _ (sm : Smithay) where
  -- `WinitEvent`
  pub data WinitEvent : Type 0 where
    resized : Size → WinitEvent
    focus_changed : Bool → WinitEvent
    input : InputEvent sm → WinitEvent
    refresh_window : WinitEvent

  -- One frame: its buffer, the renderer that draws it, and whether that begins a frame.
  pub record Attempt : Type 0 where
    pub buffer : Buffer
    pub renderer : Renderer sm
    pub begins : Bool

-- Whether a frame, that was drawn or not, ends with an error.
abbrev pub frame_fails : Buffer → Bool → Bool
frame_fails b drawn = not b.binds || (drawn && not b.submits)

-- `Ok` of what draws a frame.
abbrev pub is_drawn : Option (List Rectangle) → Bool
is_drawn none = false
is_drawn (some damage) = true

module _ {sm : Smithay} (env : Env sm) where
  -- The calls of a window that has another size, the latest first.
  abbrev pub resize_output : World sm → Output → Size → Size → World sm
  resize_output d o old new =
      let d1 = emit (emit d (delete_mode o old)) (set_preferred o new) in
      emit (emit d1 (change_mode o new)) (arrange_layers o)

  -- `State::process_winit_event`, for the device that winit's events come from.
  unfoldable pub process_winit_event :
      Device
      → BackendData
      → CommonState sm
      → World sm
      → WinitEvent sm
      → Outcome (CommonState sm × World sm)
  process_winit_event virtual b c d (resized size) = do
    (o, _) ← winit_of b
    old ← unwrap (env.current_mode o)
    sh ← refresh_outputs env c.shell
    ok (record c { shell = sh }, emit (resize_output d o old size) ping_render)
  process_winit_event virtual b c d (focus_changed true) = do
    found ← seat_of_device d c.seats virtual
    elim found [
      | none ↦ ok (c, d)
      | some seat ↦ do (o, _) ← winit_of b; d' ← set_active_output env d seat o; ok (c, d')
    ]
  process_winit_event virtual b c d (focus_changed false) = ok (c, d)
  process_winit_event virtual b c d (input event) = process_input_event env c d event
  process_winit_event virtual b c d refresh_window = ok (c, emit d ping_render)

  -- The calls of a frame.
  abbrev pub after_frame : World sm → Buffer → Bool → World sm
  after_frame d buffer drawn =
      let d1 = if drawn then emit (emit d send_frames) submit_frame else d in
      if frame_fails buffer drawn then emit d1 ping_render else d1

  -- The drawing of a frame, if it has a buffer, from the age of that.
  unfoldable pub draw_frame : CommonState sm → Output → Option ℕ → Attempt sm → Outcome Bool
  draw_frame c o none frame = ok false
  draw_frame c o (some age) frame = do
    (_, damage) ← render_frame env frame.renderer c.shell o age frame.begins
    ok (is_drawn damage)

  -- The callback of the render source: a frame that fails is asked for again.
  unfoldable pub render_callback :
      BackendData → CommonState sm → World sm → Attempt sm → Outcome (BackendData × World sm)
  render_callback b c d frame = do
    (o, s) ← winit_of b
    will ← will_render_custom env c.shell o
    (age, s') ← render_output sm s will frame.buffer
    drawn ← draw_frame c o age frame
    ok (winit o s', after_frame d frame.buffer drawn)

  -- A row of frames.
  unfoldable pub draw_frames :
      BackendData → CommonState sm → World sm → List (Attempt sm) → Outcome (BackendData × World sm)
  draw_frames b c d [] = ok (b, d)
  draw_frames b c d (frame ∷ frames) = do
    (b', d') ← render_callback b c d frame
    draw_frames b' c d' frames

  -- `winit::init_backend`: it returns an error when there is no window, and otherwise adds the one
  -- output.
  unfoldable pub init_winit :
      CommonState sm
      → World sm
      → Output
      → Option Size
      → Outcome (Option (BackendData × CommonState sm × World sm))
  init_winit c d o none = ok none
  init_winit c d o (some size) = do
    let d1 = emit (emit (emit d (create_global o)) (add_mode o size)) (set_preferred o size)
    let d2 = emit (emit d1 (change_mode o size)) ping_events
    let b = winit o (record { age_reset = 0; did_custom_rendering = none })
    sh1 ← add_output env c.shell o
    sh2 ← refresh_outputs env sh1
    ok (some (b, record c { shell = sh2 }, d2))

  -- `backend::init_backend`, by the variable ELECTRUM_BACKEND.
  unfoldable pub init_backend :
      Option String
      → CommonState sm
      → World sm
      → Output
      → Option Size
      → Outcome (Option (BackendData × CommonState sm × World sm))
  init_backend none c d o window = init_winit c d o window
  init_backend (some name) c d o window =
      let started = init_winit c d o window in if str_eq name "winit" then started else panic

module _ {sm : Smithay} where
  -- `dispatch_new_events`: the events in their order, each with what it finds.
  unfoldable pub process_all :
      Device
      → BackendData
      → CommonState sm
      → World sm
      → List (Env sm × WinitEvent sm)
      → Outcome (CommonState sm × World sm)
  process_all virtual b c d [] = ok (c, d)
  process_all virtual b c d ((env, event) ∷ events) = do
    (c', d') ← process_winit_event env virtual b c d event
    process_all virtual b c' d' events

  -- The callback of the event source, with the token of the render source if it is still there:
  -- when the window was closed, the output is removed, once.
  unfoldable pub dispatch_callback :
      Env sm
      → Device
      → Bool
      → BackendData
      → CommonState sm
      → World sm
      → List (Env sm × WinitEvent sm)
      → Bool
      → Outcome (Bool × CommonState sm × World sm)
  dispatch_callback env virtual token b c d events closed = do
    (c', d') ← process_all virtual b c d events
    let gone : Outcome (Bool × CommonState sm × World sm) = (do
      (o, _) ← winit_of b
      sh ← remove_output env c'.shell o
      ok (false, record c' { shell = sh }, emit d' remove_render_source))
    if not closed
        then ok (token, c', emit (emit d' ping_events) ping_render)
        else if token
        then gone
        else ok (false, c', d')
