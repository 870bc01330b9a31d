-- ===== src/Tests/Desktop.antt =====
-- A concrete `Smithay`: lists and functions for the types of the libraries. It shows that what is
-- assumed of them can be met, and runs the tests.
use electrum.Smithay.Geometry.{InRange, min_i32, max_i32, Point}
use electrum.Prelude.Int.{ℤ, pos, negsuc, pos_part, neg_part, ◌+ℤ◌, ◌-ℤ◌, ◌*ℤ◌}
use electrum.Workspace.{Workspace}
use electrum.Prelude.{
  ltb, ◌==◌, if◌then◌else◌, any, retain, ℕ, ◌+◌, ◌-◌, ◌^◌, min, ◌≡◌, refl, Bool, true, false, not,
  ◌&&◌, ◌||◌, Option, none, some, List, [], ◌∷◌, ◌++◌, arith,
}
use electrum.Smithay.{XdgState, same_state, has, Smithay}
use electrum.World.Layers.{Layer}
use electrum.World.{SeatData, World, Env, update}

pub record ListSpace : Type 0 where
  pub locations : ℕ → Option Point
  pub shown : List ℕ
  pub outs : List ℕ

pub has-cons : (a q : ℕ) (xs : List ℕ) → has (a ∷ xs) q ≡ (a == q) || has xs q
unfolding any
has-cons a q xs = refl

pub has-retain_ne :
    (a q : ℕ) (xs : List ℕ) → has (retain (λ x. not (x == a)) xs) q ≡ not (a == q) && has xs q
unfolding retain any
has-retain_ne a q [] = ground arith
has-retain_ne a q (x ∷ xs) = ground (arith, has-retain_ne a q xs)

abbrev slot_insert : {A : Type 0} → Option A → A → Option A × Bool
slot_insert none a = (some a, true)
slot_insert (some b) a = (some b, false)

-- `window_for_surface`: the surface of a window has the window's number.
abbrev shown_window : ListSpace → ℕ → Option ℕ
shown_window s a = if has s.shown a then some a else none

-- Whole numbers stand for `f64`, and are cut off at the ends of `i32`.
abbrev pub saturate : ℤ → ℤ
saturate (pos a) = pos (min a (2 ^ 31 - 1))
saturate (negsuc a) = negsuc (min a (2 ^ 31 - 1))

pub saturate-InRange : (a : ℤ) → InRange (saturate a)
saturate-InRange (pos a) = omega arith
saturate-InRange (negsuc a) = omega arith

abbrev pub desktop : Smithay
desktop = record {
  Float = ℤ;
  add_float = ◌+ℤ◌;
  sub_float = ◌-ℤ◌;
  mul_float = ◌*ℤ◌;
  div_float = λ a b. a;
  neg_float = λ a. pos 0 -ℤ a;
  max_float = max_i32;
  min_float = min_i32;
  zero_float = pos 0;
  three_float = pos 3;
  is_zero = λ a. pos_part a == 0 && neg_part a == 0;
  is_zero-zero_float = refl;
  of_i32 = λ a. a;
  to_i32 = saturate;
  round_i32 = saturate;
  to_i32-InRange = saturate-InRange;
  round_i32-InRange = saturate-InRange;
  output_under = λ s x y. s.outs;
  space_surface_under = λ s x y. none;
  outputs_for_window = λ s w. s.outs;
  shell_zindex = 30;
  insert_if_missing = λ {A} o a. slot_insert o a;
  insert_missing = λ a. refl;
  insert_present = λ b a. refl;
  CursorImage = ℕ;
  default_cursor = 0;
  StateSet = XdgState → Bool;
  set_state = λ s a b. same_state a b || s b;
  unset_state = λ s a b. not (same_state a b) && s b;
  contains_state = λ s b. s b;
  contains-set_state = λ s a b. refl;
  contains-unset_state = λ s a b. refl;
  WindowSet = List ℕ;
  new_set = [];
  to_list = λ s. s;
  retain_set = retain;
  shift_remove = λ s w. retain (λ v. not (v == w)) s;
  insert_set = λ s w. if has s w then s else s ++ w ∷ [];
  to_list-new_set = refl;
  to_list-retain_set = λ p s. refl;
  to_list-shift_remove = λ s w. refl;
  to_list-insert_set = λ s w. refl;
  Space = ListSpace;
  windows = λ s. s.shown;
  space_outputs = λ s. s.outs;
  window_for_surface = λ s a t. shown_window s a;
  window_location = λ s w. s.locations w;
  map_window =
      λ s w p z a. record s { locations = update s.locations w (some p); shown = w ∷ s.shown };
  unmap_window = λ s w. record s {
    locations = update s.locations w none;
    shown = retain (λ v. not (v == w)) s.shown;
  };
  raise_window = λ s w a. s;
  map_output = λ s o p. record s { outs = o ∷ s.outs };
  unmap_output = λ s o. record s { outs = retain (λ q. not (q == o)) s.outs };
  refresh_space = λ s. s;
  window_location-map_window = λ s w p z a v. refl;
  window_location-unmap_window = λ s w v. refl;
  windows-raise_window = λ s w a v. refl;
  outputs-map_output = λ s o p q. has-cons o q s.outs;
  outputs-unmap_output = λ s o q. has-retain_ne o q s.outs;
  next_serial = λ n. n + 1;
  Scale = ℕ;
  Transform = Unit {0};
  transform_size = λ t s. s;
  contains = λ r p. true;
  contains_float = λ r x y. true;
  to_logical_round = λ s c. s;
}

abbrev pub origin : Point
origin = record { x = pos 0; y = pos 0 }

abbrev pub no_states : XdgState → Bool
no_states _ = false

abbrev pub no_data : SeatData desktop
no_data = record {
  focus_stacks = none;
  active_focus = none;
  popup_grab = none;
  active_output = none;
  devices = none;
  supressed_keys = none;
  cursor_status = none;
  dnd_icon = none;
  move_grab = none;
}

-- Nothing has happened yet.
abbrev pub quiet : World desktop
quiet = record {
  seat_data = λ _. no_data;
  last_geometry = λ _. none;
  resize_state = λ _. none;
  idle = [];
  pending = λ _. record { states = no_states; size = none };
  serial = 0;
  effects = [];
}

-- Every window below 10 is alive, and the surface of a window has its number.
abbrev pub env : Env desktop
env = record {
  alive = λ w. ltb w 10;
  surface_alive = λ s. ltb s 10;
  wl_surface = λ w. w;
  is_toplevel = λ s. true;
  has_keyboard = λ s. true;
  add_keyboard = λ s. true;
  has_ended = λ g. false;
  output_name = λ o. if o == 1 then "HDMI-1" else "WINIT-0";
  current_mode = λ o. some (record { w = pos 800; h = pos 600 });
  fractional_scale = λ o. 1;
  current_location = λ o. origin;
  runtime_open = true;
  window_geometry = λ w. record { loc = origin; size = record { w = pos 640; h = pos 300 } };
  non_exclusive_zone = λ o. record { loc = origin; size = record { w = pos 900; h = pos 600 } };
  role_sizes = λ w. some (record { w = pos 0; h = pos 0 }, record { w = pos 0; h = pos 0 });
  pointer = λ s. some (record { fx = pos 5; fy = pos 6 });
  pointer_grabbed = λ s. false;
  keyboard_grabbed = λ s. false;
  current_transform = λ o. tt;
  current_states = λ w. no_states;
  cached_sizes = λ w. (record { w = pos 0; h = pos 0 }, record { w = pos 0; h = pos 0 });
  has_grab = λ s n. n == 4;
  keyboard_has_grab = λ s n. n == 4;
  grab_popup = λ w s n. some 30;
  previous_serial = λ g. none;
  grab_serial = λ g. 4;
  current_grab = λ g. some 3;
  grab_start_data = λ s. some (1, some 3);
  same_client_as = λ s t. true;
  initial_configure_sent = λ s. true;
  has_buffer = λ s. true;
  find_popup = λ s. none;
  popup_configure_sent = λ p. true;
  popup_configures = λ p. true;
  has_parent_surface = λ p. true;
  tracks_popup = λ p. true;
  has_layer_for_surface = λ o s. false;
  cached_layer = λ l. Layer.top;
  wants_keyboard = λ l. true;
  maps_layer = λ o l. true;
  layer_under = λ o l p. none;
  layer_geometry = λ o l. none;
  can_receive_keyboard_focus = λ l. false;
  layer_wl_surface = λ l. l;
  layer_surface_under = λ l p. none;
  window_surface_under = λ w p. some (w, origin);
}

-- Windows 3 and 4 on the output 0.
abbrev pub two_windows : ListSpace
two_windows = record {
  locations = λ w. if w == 3 || w == 4 then some origin else none;
  shown = 4 ∷ 3 ∷ [];
  outs = 0 ∷ [];
}

abbrev pub workspace : Workspace desktop
workspace = record {
  idx = 0;
  space = two_windows;
  fullscreen = [];
  layer = record { pending_windows = []; windows = [] };
}
