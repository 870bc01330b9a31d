-- ===== src/Focus/Stack.antt =====
-- src/shell/focus.rs: a focus stack is a list of live windows, the most recently focused last.
use electrum.Prelude.{
  ◌==◌, if◌then◌else◌, Bool-cases, any, retain, find, retain-retain, ◌≡◌, refl, sym, inl, inr, Bool,
  true, false, not, ◌&&◌, some, List, [], ◌∷◌, ◌++◌, reverse, arith,
}
use electrum.Smithay.{Window, has, Smithay}
use electrum.World.{Env}
use electrum.Focus.{last, append}
use mathlib.Core.List.{reverse-append, reverse-cons, append-nil}

has-retain_self : (w : Window) (xs : List Window) → has (retain (λ v. not (v == w)) xs) w ≡ false
unfolding retain any
has-retain_self w [] = refl
has-retain_self w (x ∷ xs) = ground (arith, has-retain_self w xs)

retain-append :
    (p : Window → Bool) (xs ys : List Window) → retain p (xs ++ ys) ≡ retain p xs ++ retain p ys
unfolding retain
retain-append p [] ys = refl
retain-append p (x ∷ xs) ys = ground (arith, retain-append p xs ys)

pub reverse-retain :
    (p : Window → Bool) (xs : List Window) → reverse (retain p xs) ≡ retain p (reverse xs)
unfolding retain
reverse-retain p [] = refl
reverse-retain p (x ∷ xs) =
    rw (reverse-cons x xs, retain-append p (reverse xs) (x ∷ []), ← reverse-retain p xs)
      (elim (Bool-cases (p x)) [
        | inl e ↦ rw e (reverse-cons x (retain p xs))
        | inr e ↦ rw e (sym (append-nil (reverse (retain p xs))))
      ])

-- A search is not changed by dropping what it would not find.
find-retain :
    (p q : Window → Bool) (xs : List Window)
    → ((x : Window) → p x ≡ true → q x ≡ true)
    → find p (retain q xs) ≡ find p xs
unfolding retain find
find-retain p q [] h = refl
find-retain p q (x ∷ xs) h = ground (arith, h x, find-retain p q xs h)

module _ {sm : Smithay} (env : Env sm) where
  -- Focusing a window drops the windows that have died and moves the window to the end; the others
  -- keep their order.
  pub to_list-append :
      (s : sm.WindowSet) (w : Window)
      → sm.to_list (append env s w)
        ≡ retain (λ v. env.alive v && not (v == w)) (sm.to_list s) ++ w ∷ []
  unfolding append
  to_list-append s w =
      let others = retain (λ v. not (v == w)) (retain env.alive (sm.to_list s)) in
      rw (
        sm.to_list-insert_set (sm.shift_remove (sm.retain_set env.alive s) w) w,
        sm.to_list-shift_remove (sm.retain_set env.alive s) w,
        sm.to_list-retain_set env.alive s,
        has-retain_self w (retain env.alive (sm.to_list s)),
        retain-retain (λ v. not (v == w)) env.alive (sm.to_list s),
      )

  -- The focused window of a stack after a window was appended is that window if it is alive, and
  -- otherwise what it was before.
  pub last-append :
      (s : sm.WindowSet) (w : Window)
      → last env (append env s w) ≡ (if env.alive w then some w else last env s)
  unfolding last find
  last-append s w =
      let others = retain (λ v. env.alive v && not (v == w)) (sm.to_list s) in
      rw (to_list-append s w, reverse-append others (w ∷ []))
        (elim (Bool-cases (env.alive w)) [
          | inl e ↦ rw e
          | inr e ↦
              rw (e, reverse-retain (λ v. env.alive v && not (v == w)) (sm.to_list s))
                (find-retain env.alive (λ v. env.alive v && not (v == w)) (reverse (sm.to_list s))
                  (λ x a. ground arith))
        ])
