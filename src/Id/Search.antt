-- ===== src/Id/Search.antt =====
-- src/id.rs: the search for a free id, over the integers modulo 2^64.
use electrum.Prelude.{
  ◌==◌, Bool-cases, length, any, retain, ℕ, zero, suc, ◌+◌, ◌%◌, ◌≤◌, ◌<◌, ◌≡◌, refl, ◌∙◌, ◌≢◌, ◌⊎◌,
  inl, inr, Bool, true, false, not, some, List, [], ◌∷◌, arith,
}
use electrum.Id.{usize_mod, incr, is_taken, skip_taken}

-- The k-th value that the loop looks at.
abbrev pub visited : ℕ → ℕ → ℕ
visited id k = (id + k) % usize_mod

pub length-retain-le : (p : ℕ → Bool) (xs : List ℕ) → length (retain p xs) ≤ length xs
unfolding retain
length-retain-le p [] = omega arith
length-retain-le p (x ∷ xs) = ground (arith, length-retain-le p xs)

-- Taking out a value that occurs shortens the list.
pub length-retain-lt :
    (a : ℕ) (xs : List ℕ)
    → is_taken xs a ≡ true
    → length (retain (λ k. not (k == a)) xs) < length xs
unfolding retain any
length-retain-lt a [] h = absurd (cc)
length-retain-lt a (x ∷ xs) h =
    ground (arith, length-retain-le (λ k. not (k == a)) xs, length-retain-lt a xs)

pub is_taken-retain_ne :
    (a b : ℕ) (xs : List ℕ) → a ≢ b → is_taken (retain (λ k. not (k == a)) xs) b ≡ is_taken xs b
unfolding retain any
is_taken-retain_ne a b [] h = refl
is_taken-retain_ne a b (x ∷ xs) h = ground (arith, is_taken-retain_ne a b xs h)

pub is_taken-retain_self :
    (a : ℕ) (xs : List ℕ) → is_taken (retain (λ k. not (k == a)) xs) a ≡ false
unfolding retain any
is_taken-retain_self a [] = refl
is_taken-retain_self a (x ∷ xs) = ground (arith, is_taken-retain_self a xs)

-- A list that holds `n` consecutive values modulo 2^64 has at least `n` entries.
pub run_bound :
    (n id : ℕ) (ids : List ℕ)
    → n ≤ usize_mod
    → ((k : ℕ) → k < n → is_taken ids (visited id k) ≡ true)
    → n ≤ length ids
run_bound zero id ids le h = omega arith
run_bound (suc n) id ids le h =
    let a = visited id n in
    let rest =
      run_bound n id (retain (λ k. not (k == a)) ids) (omega arith)
        (λ k lt. is_taken-retain_ne a (visited id k) ids (omega arith) ∙ h k (omega arith)) in
    omega (arith, length-retain-lt a ids (h n (omega arith)), rest)

abbrev pub FreeAt : ℕ → List ℕ → ℕ → ℕ → Type 0
FreeAt fuel ids id k =
    (k < fuel)
    × (skip_taken fuel ids id ≡ some (visited id k))
    × (is_taken ids (visited id k) ≡ false)
    × ((j : ℕ) → j < k → is_taken ids (visited id j) ≡ true)

-- The value at the start, and the step from one value to the next.
visited-zero : (id : ℕ) → id < usize_mod → visited id 0 ≡ id
visited-zero id h = omega arith

visited-incr : (id k : ℕ) → visited (incr id) k ≡ visited id (suc k)
visited-incr id k = omega arith

-- With any fuel the loop stops at the first free value, or all values that it saw are taken.
search_cases :
    (fuel : ℕ) (ids : List ℕ) (id : ℕ)
    → id < usize_mod
    → ((k : ℕ) × FreeAt fuel ids id k) ⊎ ((k : ℕ) → k < fuel → is_taken ids (visited id k) ≡ true)
unfolding skip_taken
search_cases zero ids id h = inr (λ k lt. elim lt [ ])
search_cases (suc fuel) ids id h = elim (Bool-cases (is_taken ids id)) [
  | inr free ↦ inl (
    0,
    (omega arith, rw (free, visited-zero id h), rw (visited-zero id h) free, λ j lt. elim lt [ ]),
  )
  | inl taken ↦ elim (search_cases fuel ids (incr id) (omega arith)) [
    | inl (k, f) ↦ inl (
      suc k,
      (
        omega arith,
        rw taken (rw (← visited-incr id k) f.1),
        rw (← visited-incr id k) f.2,
        λ j lt. from_first ids id h taken j (λ i e. rw (← visited-incr id i) (f.3 i (omega arith))),
      ),
    )
    | inr all ↦ inr (λ k lt.
        from_first ids id h taken k (λ i e. rw (← visited-incr id i) (all i (omega arith))))
  ]
]
  where
    from_first :
        (ids : List ℕ) (id : ℕ)
        → id < usize_mod
        → is_taken ids id ≡ true
        → (k : ℕ) → ((i : ℕ) → k ≡ suc i → is_taken ids (visited id (suc i)) ≡ true)
        → is_taken ids (visited id k) ≡ true
    from_first ids id h taken zero later = rw (visited-zero id h) taken
    from_first ids id h taken (suc i) later = later i refl

-- One more than the number of ids in use is fuel enough: the loop ends at the first value, from
-- `id` on and round the end of the range, that is not in use.
pub skip_taken_total :
    (ids : List ℕ) (id : ℕ)
    → id < usize_mod
    → length ids < usize_mod
    → (k : ℕ) × FreeAt (suc (length ids)) ids id k
skip_taken_total ids id h room = elim (search_cases (suc (length ids)) ids id h) [
  | inl found ↦ found
  | inr all ↦ absurd (omega (arith, run_bound (suc (length ids)) id ids (omega arith) all))
]
