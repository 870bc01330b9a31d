-- ===== src/Layout/Remembering.antt =====
-- src/shell/layout/mod.rs: what survives when a window is unmapped and mapped again.
use electrum.Prelude.{
  ◌==◌, if◌then◌else◌, ==_iff, ==-refl, Bool-cases, Option-cases, any, retain, ok, ◌≡◌, refl, sym,
  subst, inl, inr, false, not, Option, none, some, List, [], ◌∷◌, arith,
}
use electrum.Smithay.{Window, Output, Seat, maximized, has, Smithay}
use electrum.Smithay.Geometry.{Point, Size, Rectangle}
use electrum.World.{World, Env, update}
use electrum.Layout.{
  Layout, floating_index, fit_axis, eq_size, recall_size, fit_size, choose_position, insert_window,
  configure_floating, place_window, output_from_seat, map_floating, remember, unmap_floating,
}

pub has-retain_ne : (w : Window) (ws : List Window) → has (retain (λ v. not (v == w)) ws) w ≡ false
unfolding any retain
has-retain_ne w [] = refl
has-retain_ne w (v ∷ ws) = ground (arith, has-retain_ne w ws)

module _ {sm : Smithay} (env : Env sm) (l : Layout) (s : sm.Space) (d : World sm) where
  -- The layout without a window, as `unmap_window` leaves it.
  abbrev pub unmapped : Window → Layout
  unmapped w = record {
    pending_windows = retain (λ v. not (v == w)) l.pending_windows;
    windows = retain (λ v. not (v == w)) l.windows;
  }

  abbrev pub remembered : Window → Point → Rectangle
  remembered w p = record { loc = p; size = (env.window_geometry w).size }

  remember_lem :
      (w : Window) (p : Point)
      → sm.window_location s w ≡ some p
      → remember env s d w
        ≡ ok (record d { last_geometry = update d.last_geometry w (some (remembered w p)) })
  unfolding remember
  remember_lem w p at = elim (Option-cases (d.last_geometry w)) [
    | inl e ↦ rw (remember, at, e, sm.insert_missing) refl
    | inr (g, e) ↦ rw (remember, at, e, sm.insert_present) refl
  ]

  -- Unmapping a window that floats at a place succeeds.
  pub unmap_floating_lem :
      (w : Window) (p : Point)
      → sm.window_location s w ≡ some p
      → sm.contains_state (d.pending w).states maximized ≡ false
      → unmap_floating env l s d w
        ≡ ok (
          unmapped w,
          sm.unmap_window s w,
          record d { last_geometry = update d.last_geometry w (some (remembered w p)) },
        )
  unfolding unmap_floating
  unmap_floating_lem w p at floating = rw (floating, remember_lem w p at) refl

  pub put_back :
      (w : Window) (p : Point)
      → sm.window_location s w ≡ some p
      → (v : Window)
      → (if w == v then some p else (if w == v then none else sm.window_location s v))
        ≡ sm.window_location s v
  put_back w p at v = elim (Bool-cases (w == v)) [
    | inl e ↦ rw e (subst (λ u. some p ≡ sm.window_location s u) ((==_iff w v).0 e) (sym at))
    | inr e ↦ rw e refl
  ]

  -- Taking a floating window away keeps the place where it stood: neither list of the layout has it
  -- then, the space does not show it, and mapping it again for a seat with an active output, without
  -- a position, puts it back at that place and changes no other window's.
  pub map_floating-unmap_floating :
      (w : Window) (p : Point) (seat : Seat) (o : Output) (lo hi : Size)
      → sm.window_location s w ≡ some p
      → sm.contains_state (d.pending w).states maximized ≡ false
      → (d.seat_data seat).active_output ≡ some o
      → env.role_sizes w ≡ some (lo, hi)
      → (l' : Layout) × (s' : sm.Space) × (d' : World sm) × (s'' : sm.Space) × (d'' : World sm)
        × (unmap_floating env l s d w ≡ ok (l', s', d'))
        × (has l'.windows w ≡ false)
        × (has l'.pending_windows w ≡ false)
        × (sm.window_location s' w ≡ none)
        × (map_floating env l' s' d' w seat none
            ≡ ok (record l' { windows = w ∷ l'.windows }, s'', d''))
        × ((v : Window) → sm.window_location s'' v ≡ sm.window_location s v)
  unfolding map_floating output_from_seat place_window choose_position
  map_floating-unmap_floating w p seat o lo hi at floating active sizes =
      let d' = record d { last_geometry = update d.last_geometry w (some (remembered w p)) } in
      let s' = sm.unmap_window s w in
      let r =
        fit_size (env.non_exclusive_zone o).size lo hi
          (recall_size (some (remembered w p)) (env.window_geometry w).size) in
      (
        unmapped w,
        s',
        d',
        sm.map_window s' w p (floating_index sm) false,
        configure_floating env d' w r,
        unmap_floating_lem w p at floating,
        has-retain_ne w l.windows,
        has-retain_ne w l.pending_windows,
        rw (sm.window_location-unmap_window, ==-refl w) refl,
        rw (active, sizes, has-retain_ne w l.windows, ==-refl w) refl,
        λ v.
            rw (sm.window_location-map_window, sm.window_location-unmap_window) (put_back w p at v),
      )

  -- A remembered size that differs from the window's own, and that is not cut, is not asked for: the
  -- size that is pending stays.
  pub place_window-forgets :
      (w : Window) (position : Option Point) (o : Output) (lo hi : Size) (g : Rectangle)
      → d.last_geometry w ≡ some g
      → eq_size (env.window_geometry w).size g.size ≡ false
      → (fit_axis (env.non_exclusive_zone o).size.w lo.w hi.w g.size.w).1 ≡ false
      → (fit_axis (env.non_exclusive_zone o).size.h lo.h hi.h g.size.h).1 ≡ false
      → env.role_sizes w ≡ some (lo, hi)
      → (l' : Layout) × (s' : sm.Space) × (d' : World sm) × (place_window env l s d w o position
          ≡ ok (l', s', d'))
        × ((d'.pending w).size ≡ (d.pending w).size)
  unfolding place_window configure_floating fit_size recall_size
  place_window-forgets w position o lo hi g had differs keeps_w keeps_h sizes =
      let r =
        fit_size (env.non_exclusive_zone o).size lo hi
          (recall_size (some g) (env.window_geometry w).size) in
      let where_to =
        choose_position position (some g) (env.non_exclusive_zone o) (env.window_geometry w) r.0 in
      (
        record l { windows = insert_window l.windows w },
        sm.map_window s w where_to (floating_index sm) false,
        configure_floating env d w r,
        rw (sizes, had) refl,
        rw (differs, keeps_w, keeps_h, ==-refl w) refl,
      )
