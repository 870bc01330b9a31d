-- ===== src/Layout/Placing.antt =====
-- src/shell/layout/mod.rs: where `map_window` places a window, and the size that it asks for.
use electrum.Prelude.{
  if◌then◌else◌, ==-refl, any, ok, ℕ, ◌*◌, ◌/◌, ◌≡◌, refl, sym, ap, ◌∙◌, subst, ◌⊎◌, inl, inr, Bool,
  true, false, ◌&&◌, ◌||◌, Option, none, some, List, arith,
}
use electrum.Prelude.Int.{ℤ, pos, ◌≤ℤ◌, ltb_ℤ}
use electrum.Smithay.{Window, Output, Seat, has, Smithay}
use electrum.Smithay.Geometry.{eq_i32, Point, Size, Rectangle}
use electrum.World.{World, Env}
use electrum.Layout.{
  Layout, floating_index, recall_size, fit_size, choose_position, insert_window, configure_floating,
  place_window, output_from_seat, map_floating,
}
use electrum.Layout.Sizing.{IsFitted, CanFit, fit_axis-IsFitted, fit_axis-cut}

abbrev pub whole_size : ℕ → ℕ → Size
whole_size w h = record { w = pos w; h = pos h }

-- The lengths that bound a window: those of the zone, and the client's least and greatest.
pub record Limits : Type 0 where
  pub zone_w : ℕ
  pub zone_h : ℕ
  pub min_w : ℕ
  pub min_h : ℕ
  pub max_w : ℕ
  pub max_h : ℕ

-- Limits that can be met on both axes, inside the zone.
abbrev pub CanFitBoth : Limits → Type 0
CanFitBoth b = CanFit b.zone_w b.min_w b.max_w × CanFit b.zone_h b.min_h b.max_h

-- The length that was wanted, if it is at most two thirds of the zone; or else one between the limits
-- and inside the zone.
abbrev pub IsWithin : ℕ → ℕ → ℕ → ℤ → ℤ → Type 0
IsWithin zone lo hi wanted r =
    ((r ≡ wanted) × (r ≤ℤ pos (zone / 3 * 2)))
    ⊎ ((ltb_ℤ (pos (zone / 3 * 2)) wanted ≡ true)
        × (pos lo ≤ℤ r)
        × (r ≤ℤ pos zone)
        × ((hi ≡ 0) ⊎ (r ≤ℤ pos hi)))

IsFitted-IsWithin :
    (zone lo hi : ℕ) (l : ℤ) (f : ℤ × Bool)
    → f.1 ≡ ltb_ℤ (pos (zone / 3 * 2)) l
    → IsFitted zone lo hi l f
    → IsWithin zone lo hi l f.0
IsFitted-IsWithin zone lo hi l f cut (inl h) = inl (h.1, rw h.1 h.2)
IsFitted-IsWithin zone lo hi l f cut (inr h) = inr (sym cut ∙ h.0, h.1, h.2, h.3)

-- The size that a window wants: the remembered one, or its own.
abbrev pub wanted : Option Rectangle → Size → Size
wanted none size = size
wanted (some g) size = g.size

recall_size-wanted : (g : Option Rectangle) (size : Size) → (recall_size g size).0 ≡ wanted g size
unfolding recall_size
recall_size-wanted none size = refl
recall_size-wanted (some g) size = refl

fit_size-IsWithin :
    (b : Limits) (want : Size × Bool)
    → CanFitBoth b
    → let r =
        fit_size
          (whole_size b.zone_w b.zone_h)
          (whole_size b.min_w b.min_h)
          (whole_size b.max_w b.max_h)
          want in
      IsWithin b.zone_w b.min_w b.max_w want.0.w r.0.w
      × IsWithin b.zone_h b.min_h b.max_h want.0.h r.0.h
unfolding fit_size
fit_size-IsWithin b want h = (
  IsFitted-IsWithin b.zone_w b.min_w b.max_w want.0.w _
      (fit_axis-cut b.zone_w b.min_w b.max_w want.0.w)
      (fit_axis-IsFitted b.zone_w b.min_w b.max_w want.0.w h.0),
  IsFitted-IsWithin b.zone_h b.min_h b.max_h want.0.h _
      (fit_axis-cut b.zone_h b.min_h b.max_h want.0.h)
      (fit_axis-IsFitted b.zone_h b.min_h b.max_h want.0.h h.1),
)

pub has-insert_window : (ws : List Window) (w : Window) → has (insert_window ws w) w ≡ true
unfolding any
has-insert_window ws w = ground (arith, ==-refl w)

-- The axes on which a length is larger than two thirds of the zone.
abbrev pub is_large : Limits → Size → Bool
is_large b size = ltb_ℤ (pos (b.zone_w / 3 * 2)) size.w || ltb_ℤ (pos (b.zone_h / 3 * 2)) size.h

-- Whether a remembered size is the one that the window has.
abbrev pub is_recalled : Option Rectangle → Size → Bool
is_recalled none size = false
is_recalled (some g) size = eq_i32 size.w g.size.w && eq_i32 size.h g.size.h

or_assoc : (a b c : Bool) → ((a || b) || c) ≡ (a || (b || c))
or_assoc true b c = refl
or_assoc false b c = refl

fit_size-is_large :
    (b : Limits) (g : Option Rectangle) (size : Size)
    → (fit_size
        (whole_size b.zone_w b.zone_h)
        (whole_size b.min_w b.min_h)
        (whole_size b.max_w b.max_h)
        (recall_size g size)).1
      ≡ (is_recalled g size || is_large b (wanted g size))
unfolding fit_size recall_size
fit_size-is_large b none size =
    rw (fit_axis-cut b.zone_w b.min_w b.max_w size.w, fit_axis-cut b.zone_h b.min_h b.max_h size.h)
      refl
fit_size-is_large b (some g) size =
    rw
      (
        fit_axis-cut b.zone_w b.min_w b.max_w g.size.w,
        fit_axis-cut b.zone_h b.min_h b.max_h g.size.h,
      )
      (or_assoc (is_recalled (some g) size) (ltb_ℤ (pos (b.zone_w / 3 * 2)) g.size.w)
        (ltb_ℤ (pos (b.zone_h / 3 * 2)) g.size.h))

module _ {sm : Smithay} (env : Env sm) (l : Layout) (s : sm.Space) (d : World sm) where
  -- The window has its place and is asked for a size, or keeps the one that it was asked for.
  pub record Placed (w : Window) (position : Option Point) (o : Output) (b : Limits) : Type 0 where
    pub layout : Layout
    pub space : sm.Space
    pub world : World sm
    pub size : Size
    pub runs : place_window env l s d w o position ≡ ok (layout, space, world)
    pub listed : has layout.windows w ≡ true
    pub located :
        sm.window_location space w
        ≡ some (
            choose_position position
              (d.last_geometry w)
              (env.non_exclusive_zone o)
              (env.window_geometry w)
              size)
    pub wide :
        IsWithin b.zone_w b.min_w b.max_w
          (wanted (d.last_geometry w) (env.window_geometry w).size).w
          size.w
    pub tall :
        IsWithin b.zone_h b.min_h b.max_h
          (wanted (d.last_geometry w) (env.window_geometry w).size).h
          size.h
    pub asked : (world.pending w).size ≡ (
        if is_recalled (d.last_geometry w) (env.window_geometry w).size
          || is_large b (wanted (d.last_geometry w) (env.window_geometry w).size)
        then some size
        else (d.pending w).size)

  -- A window whose limits can be met inside the output's zone is placed: it is among the layout's
  -- windows and stands at the given position, or where it stood when it was unmapped, or in the
  -- middle. Its size is the wanted one on an axis where that is at most two thirds of the zone, and
  -- otherwise lies within the limits and the zone. The client is asked for that size when the wanted
  -- one is larger than two thirds on some axis, or is a remembered one that the window still has; if
  -- not, what was asked before stays.
  pub place_window-Placed :
      (w : Window) (position : Option Point) (o : Output) (b : Limits)
      → CanFitBoth b
      → (env.non_exclusive_zone o).size ≡ whole_size b.zone_w b.zone_h
      → env.role_sizes w ≡ some (whole_size b.min_w b.min_h, whole_size b.max_w b.max_h)
      → Placed w position o b
  unfolding place_window configure_floating
  place_window-Placed w position o b h zone sizes =
      let want = recall_size (d.last_geometry w) (env.window_geometry w).size in
      let r =
        fit_size (env.non_exclusive_zone o).size (whole_size b.min_w b.min_h)
          (whole_size b.max_w b.max_h) want in
      let within = fit_size-IsWithin b want h in
      record {
        layout = record l { windows = insert_window l.windows w };
        space =
            sm.map_window s w
              (choose_position position (d.last_geometry w) (env.non_exclusive_zone o)
                (env.window_geometry w) r.0)
              (floating_index sm) false;
        world = configure_floating env d w r;
        size = r.0;
        runs = rw sizes refl;
        listed = has-insert_window l.windows w;
        located = rw (sm.window_location-map_window, ==-refl w) refl;
        wide =
            subst (λ q. IsWithin b.zone_w b.min_w b.max_w q.w r.0.w)
              (recall_size-wanted (d.last_geometry w) (env.window_geometry w).size)
              (rw zone within.0);
        tall =
            subst (λ q. IsWithin b.zone_h b.min_h b.max_h q.h r.0.h)
              (recall_size-wanted (d.last_geometry w) (env.window_geometry w).size)
              (rw zone within.1);
        asked = rw (==-refl w) (
            ap (λ u. if u then some r.0 else (d.pending w).size)
              (ap
                  (λ z.
                    (fit_size z (whole_size b.min_w b.min_h) (whole_size b.max_w b.max_h) want).1)
                  zone
                ∙ fit_size-is_large b (d.last_geometry w) (env.window_geometry w).size));
      }

  -- With a position and an active output, mapping needs no more than the window's size limits.
  pub map_floating_lem :
      (w : Window) (seat : Seat) (p : Point) (o : Output) (lo hi : Size)
      → (d.seat_data seat).active_output ≡ some o
      → env.role_sizes w ≡ some (lo, hi)
      → (d' : World sm) × (map_floating env l s d w seat (some p)
          ≡ ok (
            record l { windows = insert_window l.windows w },
            sm.map_window s w p (floating_index sm) false,
            d',
          ))
        × (d'.seat_data ≡ d.seat_data)
  unfolding map_floating output_from_seat place_window configure_floating choose_position
  map_floating_lem w seat p o lo hi active sizes =
      let r =
        fit_size (env.non_exclusive_zone o).size lo hi
          (recall_size (d.last_geometry w) (env.window_geometry w).size) in
      (
        configure_floating env d w r,
        rw (map_floating, output_from_seat, active) (rw (place_window, sizes) refl),
        refl,
      )
