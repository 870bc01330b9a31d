-- ===== src/Focus/Recent.antt =====
-- src/shell/focus.rs: what a focus stack promises, as the list of live windows with the one that was
-- focused last in front.
use electrum.Prelude.{
  ◌==◌, if◌then◌else◌, ==-refl, Bool-cases, any, retain, find, ◌≡◌, refl, sym, ◌∙◌, inl, inr, Bool,
  true, false, not, ◌&&◌, Option, none, some, List, [], ◌∷◌, reverse, arith,
}
use electrum.Smithay.{Window, has, Smithay}
use electrum.World.{Env}
use electrum.Focus.{last, append}
use electrum.Focus.Stack.{reverse-retain, to_list-append}
use mathlib.Core.List.{reverse-append}

abbrev pub front : List Window → Option Window
front [] = none
front (w ∷ ws) = some w

-- No window stands in the list twice.
abbrev pub Distinct : List Window → Type 0
Distinct [] = Unit {0}
Distinct (w ∷ ws) = (has ws w ≡ false) × Distinct ws

abbrev pub others : Window → List Window → List Window
others w ws = retain (λ v. not (v == w)) ws

others_absent : (w : Window) (ws : List Window) → has ws w ≡ false → others w ws ≡ ws
unfolding retain any
others_absent w [] h = refl
others_absent w (v ∷ ws) h = ground (arith, others_absent w ws)

pub has-others : (v w : Window) (ws : List Window) → has (others w ws) v ≡ has ws v && not (v == w)
unfolding retain any
has-others v w [] = refl
has-others v w (u ∷ ws) = ground (arith, has-others v w ws)

Distinct-others : (w : Window) (ws : List Window) → Distinct ws → Distinct (others w ws)
unfolding retain
Distinct-others w [] d = tt
Distinct-others w (v ∷ ws) (h, d) = elim (Bool-cases (v == w)) [
  | inl e ↦ rw e (Distinct-others w ws d)
  | inr e ↦ rw e (rw (has-others v w ws, h) refl, Distinct-others w ws d)
]

find-front : (p : Window → Bool) (ws : List Window) → find p ws ≡ front (retain p ws)
unfolding find retain
find-front p [] = refl
find-front p (w ∷ ws) = ground (arith, find-front p ws)

retain-swap :
    (p q : Window → Bool) (ws : List Window)
    → retain p (retain (λ v. p v && q v) ws) ≡ retain q (retain p ws)
unfolding retain
retain-swap p q [] = refl
retain-swap p q (w ∷ ws) = ground (arith, retain-swap p q ws)

module _ {sm : Smithay} (env : Env sm) where
  -- The view of a stack: its live windows, the one that was focused last in front.
  abbrev pub recent : sm.WindowSet → List Window
  recent s = retain env.alive (reverse (sm.to_list s))

  -- What focusing a window does to the view: the window goes to the front, unless it has died.
  abbrev pub touch : Window → List Window → List Window
  touch w ws = if env.alive w then w ∷ others w ws else others w ws

  pub Distinct-touch : (w : Window) (ws : List Window) → Distinct ws → Distinct (touch w ws)
  Distinct-touch w ws d = elim (Bool-cases (env.alive w)) [
    | inl e ↦ rw e (ground (arith, has-others w w ws, ==-refl w), Distinct-others w ws d)
    | inr e ↦ rw e (Distinct-others w ws d)
  ]

  pub last-recent : (s : sm.WindowSet) → last env s ≡ front (recent s)
  unfolding last
  last-recent s = find-front env.alive (reverse (sm.to_list s))

  pub recent-append : (s : sm.WindowSet) (w : Window) → recent (append env s w) ≡ touch w (recent s)
  unfolding retain
  recent-append s w =
      let kept = retain (λ v. env.alive v && not (v == w)) (sm.to_list s) in
      let swap = retain-swap env.alive (λ v. not (v == w)) (reverse (sm.to_list s)) in
      rw
        (
          to_list-append env s w,
          reverse-append kept (w ∷ []),
          reverse-retain (λ v. env.alive v && not (v == w)) (sm.to_list s),
        )
        (elim (Bool-cases (env.alive w)) [ inl e ↦ rw e (rw swap refl) | inr e ↦ rw e swap ])

  -- Focusing the window in front changes nothing.
  touch-front :
      (w : Window) (ws : List Window)
      → Distinct ws
      → front ws ≡ some w
      → env.alive w ≡ true
      → touch w ws ≡ ws
  unfolding retain
  touch-front w [] d e a = ground arith
  touch-front w (v ∷ ws) (h, d) e a = ground (arith, others_absent v ws h)

  find_holds : (p : Window → Bool) (ws : List Window) (w : Window) → find p ws ≡ some w → p w ≡ true
  unfolding find
  find_holds p [] w e = ground arith
  find_holds p (v ∷ ws) w e = ground (arith, find_holds p ws w)

  pub touch-last :
      (s : sm.WindowSet) (w : Window)
      → Distinct (recent s)
      → last env s ≡ some w
      → touch w (recent s) ≡ recent s
  unfolding last
  touch-last s w d e =
      touch-front w (recent s) d (sym (last-recent s) ∙ e)
        (find_holds env.alive (reverse (sm.to_list s)) w e)
