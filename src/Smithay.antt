-- ===== src/Smithay.antt =====
-- The libraries that the compositor calls (smithay, indexmap) and the arithmetic of `f64`, none of
-- which is in the repository: handles, the operations that the code uses, and what their
-- documentation says of them. Everything that is built on them takes a value of `Smithay`.
pub mod Geometry
use electrum.Prelude.{
  ◌==◌, if◌then◌else◌, any, retain, ℕ, ◌≡◌, Bool, true, false, not, ◌&&◌, ◌||◌, Option, none, some,
  List, [], ◌∷◌, ◌++◌,
}
use electrum.Prelude.Int.{ℤ}
use Geometry.{InRange, Point, Size, Rectangle}

-- A handle is known by its identity alone.
abbrev pub Window : Type 0
Window = ℕ

abbrev pub WlSurface : Type 0
WlSurface = ℕ

abbrev pub LayerSurface : Type 0
LayerSurface = ℕ

abbrev pub Output : Type 0
Output = ℕ

abbrev pub Seat : Type 0
Seat = ℕ

abbrev pub Popup : Type 0
Popup = ℕ

abbrev pub PopupGrab : Type 0
PopupGrab = ℕ

abbrev pub Serial : Type 0
Serial = ℕ

-- `WindowSurfaceType`, as far as it is used.
pub data SurfaceType : Type 0 where
  all toplevel : SurfaceType

-- `xdg_toplevel::State`, as far as it is used.
pub data XdgState : Type 0 where
  maximized fullscreen resizing tiled_left tiled_right tiled_top tiled_bottom : XdgState

abbrev pub same_state : XdgState → XdgState → Bool
same_state maximized maximized = true
same_state fullscreen fullscreen = true
same_state resizing resizing = true
same_state tiled_left tiled_left = true
same_state tiled_right tiled_right = true
same_state tiled_top tiled_top = true
same_state tiled_bottom tiled_bottom = true
same_state _ _ = false

-- Membership of a handle in a list of handles.
abbrev pub has : List ℕ → ℕ → Bool
has xs a = any (λ x. x == a) xs

pub record Smithay : Type 1 where
  -- `f64`, its arithmetic, `as f64` from an `i32`, `as i32` (which saturates) and rounding to an
  -- `i32`.
  pub Float : Type 0
  pub add_float : Float → Float → Float
  pub sub_float : Float → Float → Float
  pub mul_float : Float → Float → Float
  pub div_float : Float → Float → Float
  pub neg_float : Float → Float
  pub max_float : Float → Float → Float
  pub min_float : Float → Float → Float
  pub zero_float : Float
  pub three_float : Float
  pub is_zero : Float → Bool
  pub of_i32 : ℤ → Float
  pub to_i32 : Float → ℤ
  pub round_i32 : Float → ℤ
  pub to_i32-InRange : (f : Float) → InRange (to_i32 f)
  pub is_zero-zero_float : is_zero zero_float ≡ true
  pub round_i32-InRange : (f : Float) → InRange (round_i32 f)
  -- `UserDataMap`: a slot of one type, seen through `get`. The first insertion stays.
  pub insert_if_missing : {A : Type 0} → Option A → A → Option A × Bool
  pub insert_missing : {A : Type 0} (a : A) → insert_if_missing none a ≡ (some a, true)
  pub insert_present : {A : Type 0} (b a : A) → insert_if_missing (some b) a ≡ (some b, false)
  -- `CursorImageStatus`
  pub CursorImage : Type 0
  pub default_cursor : CursorImage
  -- `ToplevelStateSet`
  pub StateSet : Type 0
  pub set_state : StateSet → XdgState → StateSet
  pub unset_state : StateSet → XdgState → StateSet
  pub contains_state : StateSet → XdgState → Bool
  pub contains-set_state :
      (s : StateSet) (a b : XdgState)
      → contains_state (set_state s a) b ≡ same_state a b || contains_state s b
  pub contains-unset_state :
      (s : StateSet) (a b : XdgState)
      → contains_state (unset_state s a) b ≡ not (same_state a b) && contains_state s b
  -- `IndexSet<Window>`, in its order.
  pub WindowSet : Type 0
  pub new_set : WindowSet
  pub to_list : WindowSet → List Window
  pub retain_set : (Window → Bool) → WindowSet → WindowSet
  pub shift_remove : WindowSet → Window → WindowSet
  pub insert_set : WindowSet → Window → WindowSet
  pub to_list-new_set : to_list new_set ≡ []
  pub to_list-retain_set :
      (p : Window → Bool) (s : WindowSet) → to_list (retain_set p s) ≡ retain p (to_list s)
  pub to_list-shift_remove :
      (s : WindowSet) (w : Window)
      → to_list (shift_remove s w) ≡ retain (λ v. not (v == w)) (to_list s)
  pub to_list-insert_set :
      (s : WindowSet) (w : Window)
      → to_list (insert_set s w) ≡ (if has (to_list s) w then to_list s else to_list s ++ w ∷ [])
  -- `Space`: the windows and outputs of one workspace.
  pub Space : Type 0
  pub windows : Space → List Window
  pub space_outputs : Space → List Output
  pub window_for_surface : Space → WlSurface → SurfaceType → Option Window
  pub window_location : Space → Window → Option Point
  -- The outputs at a point, and those that show a window.
  pub output_under : Space → Float → Float → List Output
  pub space_surface_under : Space → Float → Float → Option (Window × WlSurface × Point)
  pub outputs_for_window : Space → Window → List Output
  pub map_window : Space → Window → Point → ℕ → Bool → Space
  pub unmap_window : Space → Window → Space
  pub raise_window : Space → Window → Bool → Space
  pub map_output : Space → Output → Point → Space
  pub unmap_output : Space → Output → Space
  pub refresh_space : Space → Space
  pub window_location-map_window :
      (s : Space) (w : Window) (p : Point) (z : ℕ) (a : Bool) (v : Window)
      → window_location (map_window s w p z a) v ≡ (if w == v then some p else window_location s v)
  pub window_location-unmap_window :
      (s : Space) (w v : Window)
      → window_location (unmap_window s w) v ≡ (if w == v then none else window_location s v)
  pub windows-raise_window :
      (s : Space) (w : Window) (a : Bool) (v : Window)
      → has (windows (raise_window s w a)) v ≡ has (windows s) v
  pub outputs-map_output :
      (s : Space) (o : Output) (p : Point) (q : Output)
      → has (space_outputs (map_output s o p)) q ≡ o == q || has (space_outputs s) q
  pub outputs-unmap_output :
      (s : Space) (o q : Output)
      → has (space_outputs (unmap_output s o)) q ≡ not (o == q) && has (space_outputs s) q
  -- `RenderZindex::Shell as u8`
  pub shell_zindex : ℕ
  -- `SERIAL_COUNTER`: the serial that follows the one given out last.
  pub next_serial : Serial → Serial
  -- `size.to_f64().to_logical(scale).to_i32_round()`, the scale in its fractional form.
  pub Scale : Type 0
  pub Transform : Type 0
  pub transform_size : Transform → Size → Size
  -- `Rectangle::contains`, and the same over `f64`.
  pub contains : Rectangle → Point → Bool
  pub contains_float : Rectangle → Float → Float → Bool
  pub to_logical_round : Size → Scale → Size
