-- ===== src/World.antt =====
-- What the handlers read of their surroundings, and the state that they share through handles:
-- the user data of seats and windows, the pending state of toplevels, the serial counter, and the
-- calls that go out to clients and to the script runtime (src/runtime/messages.rs).
pub mod Layers
use Layers.{Layer}
use electrum.Prelude.{
  ◌==◌, if◌then◌else◌, ==_iff, Bool-cases, Outcome, ok, panic, ℕ, String, ◌≡◌, refl, ap, ◌∙◌, inl,
  inr, Bool, Option, List, ◌∷◌,
}
use electrum.Prelude.Int.{ℤ}
use electrum.Smithay.{
  Window, WlSurface, LayerSurface, Output, Seat, Popup, PopupGrab, Serial, Smithay,
}
use electrum.Smithay.Geometry.{Point, Size, Rectangle}

-- `DeviceCapability`, as far as a seat handles it.
pub data Capability : Type 0 where
  keyboard pointer : Capability

-- `RuntimeMessage`. A `PointerGrabStartData` is the number of the grab that it belongs to, and an
-- edge is its number in the protocol.
pub data RuntimeMessage : Type 0 where
  ping : RuntimeMessage
  maximize_request : Window → Output → RuntimeMessage
  unmaximize_request : Window → RuntimeMessage
  resize_request : Window → Seat → Serial → ℕ → ℕ → RuntimeMessage
  unfullscreen_request : Window → RuntimeMessage

-- `MoveGrabState`, over the points of `f64`.
pub record MoveGrabState (C : Type 0) : Type 0 where
  pub window : Window
  pub initial_cursor_location : C
  pub initial_window_location : Point

-- `wl_pointer::AxisSource`, as far as it is used.
pub data AxisSource : Type 0 where
  wheel finger continuous : AxisSource

-- `ResizeEdge`, by its bits.
abbrev pub ResizeEdge : Type 0
ResizeEdge = ℕ

pub record ResizeData : Type 0 where
  pub edges : ResizeEdge
  pub initial_window_location : Point
  pub initial_window_size : Size

pub data ResizeState : Type 0 where
  not_resizing : ResizeState
  is_resizing : ResizeData → ResizeState
  waiting_for_final_ack : ResizeData → Serial → ResizeState
  waiting_for_commit : ResizeData → ResizeState

module _ (sm : Smithay) where
  -- A `Point<f64, Logical>`.
  pub record PointF : Type 0 where
    pub fx : sm.Float
    pub fy : sm.Float

  -- One axis of an `AxisFrame`, and both.
  pub record AxisPart : Type 0 where
    pub value : Option sm.Float
    pub discrete : Option ℤ
    pub stop : Bool

  pub record AxisFrame : Type 0 where
    pub source : AxisSource
    pub horizontal : AxisPart
    pub vertical : AxisPart

  -- The pending state of a toplevel.
  pub record Pending : Type 0 where
    pub states : sm.StateSet
    pub size : Option Size

  -- `(HashMap<u8, IndexSet<Window>>, IndexSet<Window>)`
  pub record FocusStackData : Type 0 where
    pub stacks : ℕ → Option sm.WindowSet
    pub fallback : sm.WindowSet

  -- The slots of a seat's user data.
  pub record SeatData : Type 0 where
    pub focus_stacks : Option FocusStackData
    pub active_focus : Option (Option WlSurface)
    pub popup_grab : Option (Option PopupGrab)
    pub active_output : Option Output
    pub devices : Option (List (String × List Capability))
    pub supressed_keys : Option (List ℕ)
    pub cursor_status : Option sm.CursorImage
    pub dnd_icon : Option (Option WlSurface)
    pub move_grab : Option (Option (MoveGrabState PointF))

  -- A call that leaves the compositor.
  pub data Effect : Type 0 where
    send_configure : Window → Pending → Effect
    send : RuntimeMessage → Effect
    keyboard_focus : Seat → Option WlSurface → Serial → Effect
    ungrab_popup : PopupGrab → Effect
    configure : Window → Bool → Effect
    pointer_motion : PointF → Option (WlSurface × Point) → Serial → Effect
    pointer_button : ℕ → Bool → Serial → Effect
    pointer_axis : AxisFrame → Effect
    key_input : Seat → ℕ → Bool → Serial → Effect
    set_grab : Seat → Window → Serial → Effect
    keyboard_grab : Seat → PopupGrab → Serial → Effect
    pointer_grab : Seat → PopupGrab → Serial → Effect
    load_buffer : WlSurface → Effect
    commit_popups : WlSurface → Effect
    commit_space : ℕ → WlSurface → Effect
    configure_popup : Popup → Effect
    set_positioner : Popup → ℕ → Effect
    track_popup : Popup → Effect
    send_repositioned : Popup → ℕ → Effect
    map_layer_surface : Output → LayerSurface → Effect
    arrange_layers : Output → Effect
    cleanup_layers : Output → Effect
    stop_loop : Effect
    flush_clients : Effect
    unset_grab : Serial → Effect
    -- What the nested backend asks of its output, its window and its own event sources.
    create_global : Output → Effect
    add_mode delete_mode set_preferred change_mode : Output → Size → Effect
    send_frames submit_frame ping_render ping_events remove_render_source : Effect

  -- The effects stand with the latest first. What waits for the idle event loop is a seat and an
  -- output, for `drop_move`.
  pub record World : Type 0 where
    pub seat_data : Seat → SeatData
    pub last_geometry : Window → Option Rectangle
    pub resize_state : Window → Option ResizeState
    pub idle : List (Seat × Output)
    pub pending : Window → Pending
    pub serial : Serial
    pub effects : List Effect

  -- What a handler finds when it asks: it does not change while the handler runs.
  pub record Env : Type 0 where
    pub alive : Window → Bool
    pub surface_alive : WlSurface → Bool
    pub wl_surface : Window → WlSurface
    pub is_toplevel : WlSurface → Bool
    pub has_keyboard : Seat → Bool
    -- Whether a new seat gets its keyboard.
    pub add_keyboard : Seat → Bool
    pub has_ended : PopupGrab → Bool
    pub output_name : Output → String
    pub current_mode : Output → Option Size
    pub fractional_scale : Output → sm.Scale
    pub current_location : Output → Point
    pub runtime_open : Bool
    pub window_geometry : Window → Rectangle
    pub non_exclusive_zone : Output → Rectangle
    pub role_sizes : Window → Option (Size × Size)
    pub pointer : Seat → Option PointF
    pub pointer_grabbed : Seat → Bool
    pub keyboard_grabbed : Seat → Bool
    pub current_transform : Output → sm.Transform
    -- The states that the client has acknowledged, and the size limits that it has committed.
    pub current_states : Window → sm.StateSet
    pub cached_sizes : Window → Size × Size
    -- The button press of a serial that still grabs the pointer, what the grab started with (its
    -- number and the surface that had the pointer), and whether two surfaces are of one client.
    pub has_grab : Seat → Serial → Bool
    pub keyboard_has_grab : Seat → Serial → Bool
    -- What `grab_popup` returns, and what the grab says of itself.
    pub grab_popup : WlSurface → Seat → Serial → Option PopupGrab
    pub previous_serial : PopupGrab → Option Serial
    pub grab_serial : PopupGrab → Serial
    pub current_grab : PopupGrab → Option WlSurface
    pub grab_start_data : Seat → Option (ℕ × Option WlSurface)
    pub same_client_as : WlSurface → WlSurface → Bool
    -- What a commit asks of surfaces and popups.
    pub initial_configure_sent : WlSurface → Bool
    pub has_buffer : WlSurface → Bool
    pub find_popup : WlSurface → Option Popup
    pub popup_configure_sent : Popup → Bool
    pub popup_configures : Popup → Bool
    pub has_parent_surface : Popup → Bool
    pub tracks_popup : Popup → Bool
    pub has_layer_for_surface : Output → WlSurface → Bool
    -- The cached layer of a layer surface, whether it wants the keyboard, and whether the output's
    -- map takes it.
    pub cached_layer : LayerSurface → Layer
    pub wants_keyboard : LayerSurface → Bool
    pub maps_layer : Output → LayerSurface → Bool
    -- The layer surfaces of an output, and the surfaces below a point.
    pub layer_under : Output → Layer → PointF → Option LayerSurface
    pub layer_geometry : Output → LayerSurface → Option Rectangle
    pub can_receive_keyboard_focus : LayerSurface → Bool
    pub layer_wl_surface : LayerSurface → WlSurface
    pub layer_surface_under : LayerSurface → PointF → Option (WlSurface × Point)
    pub window_surface_under : Window → PointF → Option (WlSurface × Point)

-- A write to one entry of a map over handles.
abbrev pub update {ℓ} : {A : Type ℓ} → (ℕ → A) → ℕ → A → ℕ → A
update f k v j = if k == j then v else f j

-- What the new entry has in common with the old one, all entries have.
pub update-same {ℓ κ} :
    {A : Type ℓ} {B : Type κ} (g : A → B) (f : ℕ → A) (k : ℕ) (v : A) (j : ℕ)
    → g v ≡ g (f k)
    → g (update f k v j) ≡ g (f j)
update-same g f k v j e = elim (Bool-cases (k == j)) [
  | inl t ↦ rw t (e ∙ ap (λ i. g (f i)) ((==_iff k j).0 t))
  | inr t ↦ rw t refl
]

module _ (sm : Smithay) where
  -- Sums and differences of points, and the ways between `i32` and `f64`.
  abbrev pub sub_point : PointF sm → PointF sm → PointF sm
  sub_point p q = record { fx = sm.sub_float p.fx q.fx; fy = sm.sub_float p.fy q.fy }

  abbrev pub add_point : PointF sm → PointF sm → PointF sm
  add_point p q = record { fx = sm.add_float p.fx q.fx; fy = sm.add_float p.fy q.fy }

  abbrev pub point_to_f64 : Point → PointF sm
  point_to_f64 p = record { fx = sm.of_i32 p.x; fy = sm.of_i32 p.y }

  abbrev pub to_i32_round : PointF sm → Point
  to_i32_round p = record { x = sm.round_i32 p.fx; y = sm.round_i32 p.fy }

module _ {sm : Smithay} where
  abbrev pub emit : World sm → Effect sm → World sm
  emit d e = record d { effects = e ∷ d.effects }

  -- `Sender::send(..).unwrap()`: it fails when the receiver is gone.
  unfoldable pub send_message : Env sm → World sm → RuntimeMessage → Outcome (World sm)
  send_message env d m = if env.runtime_open then ok (emit d (send m)) else panic

  abbrev pub set_seat : World sm → Seat → SeatData sm → World sm
  set_seat d seat s = record d { seat_data = update d.seat_data seat s }

  -- `xdg.with_pending_state(..); xdg.send_configure();`
  abbrev pub set_pending : World sm → Window → Pending sm → World sm
  set_pending d w p = record d {
    pending = update d.pending w p;
    effects = send_configure w p ∷ d.effects;
  }
