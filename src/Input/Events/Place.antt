-- ===== src/Input/Events/Place.antt =====
-- src/input/mod.rs: the output and the place that a motion of the pointer leads to.
use electrum.Prelude.{
  ◌==◌, ==_iff, Bool-cases, find, All, ok, unwrap_or, ◌≡◌, refl, sym, ap, ◌∙◌, subst, ◌⊎◌, inl, inr,
  Bool, true, false, Option, none, some, List, [], ◌∷◌, ◌++◌,
}
use electrum.Prelude.Int.{◌+ℤ◌}
use electrum.Smithay.{WlSurface, Output, Seat, Smithay}
use electrum.Smithay.Geometry.{wrap_i32, Point}
use electrum.World.{PointF, pointer_motion, World, Env, add_point}
use electrum.Workspace.{Workspace, get_fullscreen}
use electrum.State.Output.{geometry, active_output}
use electrum.Shell.{Shell, active_workspace}
use electrum.Input.Under.Owner.{owner_at, pointer_enters, surface_under-owner_at}
use electrum.Input.Events.{relative_to, output_at, clamp_to, move_pointer}
use electrum.Input.Events.Motion.{set_active_output-MovedTo, send_motion_lem}
use electrum.Input.Events.Target.{LayersAreHit, owner_at-OwnerIsHit, pointer_enters_total}

-- The first of a list that passes a test; or one that stands in, when none does.
abbrev pub IsFirst : (Output → Bool) → List Output → Output → Output → Type 0
IsFirst p l fallback o =
    ((before after : List Output) × (l ≡ before ++ o ∷ after)
      × (p o ≡ true)
      × All (λ x. p x ≡ false) before)
    ⊎ (All (λ x. p x ≡ false) l × (o ≡ fallback))

find-IsFirst :
    (p : Output → Bool) (l : List Output) (fallback : Output)
    → IsFirst p l fallback (unwrap_or (find p l) fallback)
unfolding find
find-IsFirst p [] fallback = inr (tt, refl)
find-IsFirst p (x ∷ l) fallback = elim (Bool-cases (p x)) [
  | inl e ↦
      let is : unwrap_or (find p (x ∷ l)) fallback ≡ x = rw e refl in
      subst (λ o. IsFirst p (x ∷ l) fallback o) (sym is) (inl ([], l, refl, e, tt))
  | inr e ↦
      let is : unwrap_or (find p (x ∷ l)) fallback ≡ unwrap_or (find p l) fallback = rw e refl in
      subst (λ o. IsFirst p (x ∷ l) fallback o) (sym is) (later e (find-IsFirst p l fallback))
]
  where
    later :
        p x ≡ false
        → IsFirst p l fallback (unwrap_or (find p l) fallback)
        → IsFirst p (x ∷ l) fallback (unwrap_or (find p l) fallback)
    later e (inl (before, after, is, holds, none_before)) =
        inl (x ∷ before, after, ap (λ q. x ∷ q) is, holds, (e, none_before))
    later e (inr (none_at, is)) = inr ((e, none_at), is)

module _ {sm : Smithay} (env : Env sm) where
  -- The output shows a point.
  abbrev pub shows : PointF sm → Output → Bool
  shows p o = sm.contains_float (geometry env o) p.fx p.fy

  -- A point that is kept from being negative and inside the far edges of an output.
  abbrev pub kept_inside : PointF sm → Output → PointF sm
  kept_inside p o =
      let g = geometry env o in
      record {
        fx =
            sm.min_float (sm.max_float sm.zero_float p.fx)
              (sm.of_i32 (wrap_i32 (g.loc.x +ℤ g.size.w)));
        fy =
            sm.min_float (sm.max_float sm.zero_float p.fy)
              (sm.of_i32 (wrap_i32 (g.loc.y +ℤ g.size.h)));
      }

  -- What a motion leaves: the output that the pointer moves to is the first that shows the new
  -- place, or else the one that was active, and it is the seat's active output; the pointer is told
  -- of the new place, kept inside, and enters what its owner has it enter. Other seats stay.
  pub record Moves (sh : Shell sm) (ws : Workspace sm) (d : World sm) (seat : Seat)
      (delta at : PointF sm) (current : Output) : Type 0 where
    pub output : Output
    pub under : Option (WlSurface × Point)
    pub world : World sm
    pub runs : move_pointer env sh d seat delta ≡ ok world
    pub found : IsFirst (shows (add_point sm at delta)) sh.outputs current output
    pub active : (world.seat_data seat).active_output ≡ some output
    pub enters :
        let p = kept_inside (add_point sm at delta) output in
        pointer_enters env p
          (relative_to env p output)
          output
          (geometry env output)
          (owner_at env output ws (relative_to env p output))
        ≡ ok under
    pub told :
        world.effects
        ≡ pointer_motion
            (kept_inside (add_point sm at delta) output)
            under
            (sm.next_serial d.serial)
          ∷ d.effects
    pub others : (q : Seat) → (seat == q) ≡ false → world.seat_data q ≡ d.seat_data q

  -- A motion of a pointer, on a seat with an active output and while no window is fullscreen, runs
  -- through, and moves the pointer to the first output that shows the new place, or else leaves it
  -- on the one that was active: afterwards that is the seat's active output, and the pointer is told
  -- the new place, not negative and inside the output's far edges, with what the owner of that place
  -- has it enter. Other seats' data stays. What is assumed of layer surfaces is that one which is
  -- found at a point has a place and is hit there.
  pub move_pointer-MovedTo :
      (sh : Shell sm) (ws : Workspace sm) (d : World sm) (seat : Seat) (delta at : PointF sm)
      (current : Output)
      → (d.seat_data seat).active_output ≡ some current
      → env.pointer seat ≡ some at
      → active_workspace sh.workspaces ≡ ok ws
      → ((o : Output) → get_fullscreen env ws o ≡ none)
      → LayersAreHit env
      → Moves sh ws d seat delta at current
  unfolding move_pointer active_output output_at clamp_to
  move_pointer-MovedTo sh ws d seat delta at current active points first windowed layers =
      let to = add_point sm at delta in
      let o = output_at env sh current to in
      let p = kept_inside to o in
      let relative = relative_to env p o in
      let owner = owner_at env o ws relative in
      let (under, enters) =
        pointer_enters_total env p o owner (owner_at-OwnerIsHit env o ws relative layers) in
      let hit = surface_under-owner_at env p relative o (geometry env o) ws (windowed o) ∙ enters in
      elim (Bool-cases (o == current)) [
        | inl e ↦
            let (d', sends, told, seats) = send_motion_lem env sh ws d p o under first hit in
            record {
              output = o;
              under = under;
              world = d';
              runs = rw (move_pointer, active_output, active, points) (rw e (rw sends refl));
              found = find-IsFirst (shows to) sh.outputs current;
              active =
                  ap (λ f. (f seat).active_output) seats
                  ∙ active
                  ∙ ap some (sym ((==_iff o current).0 e));
              enters = enters;
              told = told;
              others = λ q ne. ap (λ f. f q) seats;
            }
        | inr e ↦
            let (d1, sets, moved) = set_active_output-MovedTo env d seat o in
            let (d', sends, told, seats) = send_motion_lem env sh ws d1 p o under first hit in
            record {
              output = o;
              under = under;
              world = d';
              runs =
                  rw (move_pointer, active_output, active, points) (rw e (rw sets (rw sends refl)));
              found = find-IsFirst (shows to) sh.outputs current;
              active = ap (λ f. (f seat).active_output) seats ∙ moved.active;
              enters = enters;
              told = rw (told, moved.serial, moved.effects) refl;
              others = λ q ne. ap (λ f. f q) seats ∙ moved.others q ne;
            }
      ]
