-- ===== src/Layout/Grab/Resize.antt =====
-- src/shell/layout/grab.rs: what a resize asks of its window.
use electrum.Prelude.{
  ◌==◌, if◌then◌else◌, ==-refl, ok, ℕ, ◌≤◌, min, max, ◌≡◌, refl, ◌⊎◌, Bool, true, false, none, some,
  [], arith,
}
use electrum.Prelude.Int.{ℤ, pos, negsuc, pos_part, ◌≤ℤ◌}
use electrum.Smithay.{Serial, resizing, Smithay}
use electrum.Smithay.Geometry.{i32_max, Size}
use electrum.World.{
  ResizeData, is_resizing, waiting_for_final_ack, PointF, pointer_motion, pointer_button,
  unset_grab, World, Env, update, emit, set_pending,
}
use electrum.Layout.Grab.{
  ResizeSurfaceGrab, clamp_axis, new_size, resize_motion, finish, resize_button,
}

-- Between the limits: at least 1, at least the lower limit, and at most the upper one, 0 being none.
abbrev pub IsClamped : ℕ → ℕ → ℤ → Type 0
IsClamped lo hi r = (pos 1 ≤ℤ r) × (pos lo ≤ℤ r) × ((hi ≡ 0) ⊎ (r ≤ℤ pos hi)) × (r ≤ℤ pos i32_max)

clamp_axis-nat :
    (lo hi : ℕ) (l : ℤ)
    → clamp_axis (pos lo) (pos hi) l
      ≡ pos (min (max (pos_part l) (max lo 1)) (if hi == 0 then i32_max else hi))
unfolding clamp_axis
clamp_axis-nat lo hi (pos l) = ground arith
clamp_axis-nat lo hi (negsuc l) = ground arith

-- Limits of an `i32` that can be met.
abbrev pub IsLimit : ℕ → ℕ → Type 0
IsLimit lo hi = (lo ≤ i32_max) × (hi ≤ i32_max) × ((hi ≡ 0) ⊎ (lo ≤ hi))

clamp_axis-IsClamped :
    (lo hi : ℕ) (l : ℤ) → IsLimit lo hi → IsClamped lo hi (clamp_axis (pos lo) (pos hi) l)
clamp_axis-IsClamped lo hi l h = rw (clamp_axis-nat lo hi l) (ground arith)

module _ {sm : Smithay} (env : Env sm) where
  new_size-IsClamped :
      (grab : ResizeSurfaceGrab sm) (location : PointF sm) (lw lh hw hh : ℕ)
      → env.cached_sizes grab.window
        ≡ (record { w = pos lw; h = pos lh }, record { w = pos hw; h = pos hh })
      → IsLimit lw hw
      → IsLimit lh hh
      → IsClamped lw hw (new_size env grab location).w
        × IsClamped lh hh (new_size env grab location).h
  unfolding new_size
  new_size-IsClamped grab location lw lh hw hh e a b =
      rw e (clamp_axis-IsClamped lw hw _ a, clamp_axis-IsClamped lh hh _ b)

  -- The state that the drag of a live window leaves.
  abbrev dragged : ResizeSurfaceGrab sm → World sm → PointF sm → Serial → World sm
  dragged grab d location serial =
      let w = grab.window in
      set_pending (emit d (pointer_motion location none serial)) w (record {
        states = sm.set_state (d.pending w).states resizing;
        size = some (new_size env grab location);
      })

  resize_motion-eq :
      (grab : ResizeSurfaceGrab sm) (d : World sm) (location : PointF sm) (serial : Serial)
      → env.alive grab.window ≡ true
      → resize_motion env grab d location serial ≡ (
        record grab { last_window_size = new_size env grab location },
        dragged grab d location serial,
      )
  unfolding resize_motion
  resize_motion-eq grab d location serial live = rw live refl

  -- The state that the release leaves.
  abbrev released : ResizeSurfaceGrab sm → World sm → ℕ → Bool → Serial → ResizeData → World sm
  released grab d button state serial resize_data =
      let w = grab.window in
      let d1 = emit (emit d (pointer_button button state serial)) (unset_grab serial) in
      let d2 = set_pending d1 w (record {
        states = sm.unset_state (d.pending w).states resizing;
        size = some grab.last_window_size;
      }) in
      record d2 {
        resize_state = update d.resize_state w (some (waiting_for_final_ack resize_data serial));
      }

  resize_button-eq :
      (grab : ResizeSurfaceGrab sm) (d : World sm) (button : ℕ) (state : Bool) (serial : Serial)
      (resize_data : ResizeData)
      → env.alive grab.window ≡ true
      → d.resize_state grab.window ≡ some (is_resizing resize_data)
      → resize_button env grab d button state serial []
        ≡ ok (released grab d button state serial resize_data)
  unfolding resize_button finish
  resize_button-eq grab d button state serial resize_data live resizes = rw (live, resizes) refl

  -- The pointer drags an edge of a live window that is being resized, and the last button is
  -- released. While it drags, the client is asked for a size between the limits that it has
  -- committed, at least 1 and an `i32`, and to be resizing; after the release it is asked for that
  -- same size, no longer resizing, and the final acknowledgement is awaited.
  pub resize_button-resize_motion :
      (grab : ResizeSurfaceGrab sm) (d : World sm) (location : PointF sm) (serial later : Serial)
      (button : ℕ) (state : Bool) (resize_data : ResizeData) (lw lh hw hh : ℕ)
      → env.cached_sizes grab.window
        ≡ (record { w = pos lw; h = pos lh }, record { w = pos hw; h = pos hh })
      → IsLimit lw hw
      → IsLimit lh hh
      → env.alive grab.window ≡ true
      → d.resize_state grab.window ≡ some (is_resizing resize_data)
      → let w = grab.window in
        let (grab', d') = resize_motion env grab d location serial in
        (size : Size) × (d'' : World sm) × IsClamped lw hw size.w
        × IsClamped lh hh size.h
        × ((d'.pending w).size ≡ some size)
        × (sm.contains_state (d'.pending w).states resizing ≡ true)
        × (resize_button env grab' d' button state later [] ≡ ok d'')
        × ((d''.pending w).size ≡ some size)
        × (sm.contains_state (d''.pending w).states resizing ≡ false)
        × (d''.resize_state w ≡ some (waiting_for_final_ack resize_data later))
  resize_button-resize_motion grab d location serial later button state resize_data lw lh hw hh
        sizes a b live resizes =
      let size = new_size env grab location in
      let grab' = record grab { last_window_size = size } in
      let d' = dragged grab d location serial in
      let within = new_size-IsClamped grab location lw lh hw hh sizes a b in
      rw (resize_motion-eq grab d location serial live) (
        size,
        released grab' d' button state later resize_data,
        within.0,
        within.1,
        rw (==-refl grab.window) refl,
        rw (==-refl grab.window) (rw (sm.contains-set_state) refl),
        resize_button-eq grab' d' button state later resize_data live resizes,
        rw (==-refl grab.window) refl,
        rw (==-refl grab.window) (rw (sm.contains-unset_state) refl),
        rw (==-refl grab.window) refl,
      )
