-- ===== src/Id/Alloc.antt =====
-- src/id.rs: what `next_seat_id` promises, and where the promise ends.
use electrum.Prelude.{
  ◌==◌, length, any, retain, ok, ℕ, ◌+◌, ◌≤◌, ◌<◌, ◌≡◌, refl, ◌≢◌, Bool, true, false, not, some,
  List, [], ◌∷◌, arith,
}
use electrum.Id.Search.{visited, length-retain-le, skip_taken_total}
use electrum.Id.{
  usize_mod, usize_max, incr, IdGen, is_taken, skip_taken, updated, next_id, release_id, Call,
  create, drop, run,
}

abbrev pub AllBelow : ℕ → List ℕ → Type 0
AllBelow n [] = Unit {0}
AllBelow n (x ∷ xs) = (x < n) × AllBelow n xs

abbrev pub Distinct : List ℕ → Type 0
Distinct [] = Unit {0}
Distinct (x ∷ xs) = (is_taken xs x ≡ false) × Distinct xs

-- While the counter has not wrapped, the ids in use are distinct and below it.
pub record IsFresh (g : IdGen) : Type 0 where
  pub below : AllBelow g.next g.ids
  pub distinct : Distinct g.ids
  pub fits : length g.ids ≤ g.next
  pub in_range : g.next < usize_max

AllBelow-not_taken : (n : ℕ) (ids : List ℕ) → AllBelow n ids → is_taken ids n ≡ false
unfolding any
AllBelow-not_taken n [] h = refl
AllBelow-not_taken n (x ∷ xs) h = ground (arith, AllBelow-not_taken n xs h.1)

AllBelow-mono : (m n : ℕ) (ids : List ℕ) → m ≤ n → AllBelow m ids → AllBelow n ids
AllBelow-mono m n [] le h = tt
AllBelow-mono m n (x ∷ xs) le h = (omega arith, AllBelow-mono m n xs le h.1)

AllBelow-retain : (n : ℕ) (p : ℕ → Bool) (ids : List ℕ) → AllBelow n ids → AllBelow n (retain p ids)
unfolding retain
AllBelow-retain n p [] h = tt
AllBelow-retain n p (x ∷ xs) h = ground (arith, AllBelow-retain n p xs h.1)

not_taken-retain :
    (a : ℕ) (p : ℕ → Bool) (ids : List ℕ)
    → is_taken ids a ≡ false
    → is_taken (retain p ids) a ≡ false
unfolding retain any
not_taken-retain a p [] h = refl
not_taken-retain a p (x ∷ xs) h = ground (arith, not_taken-retain a p xs)

Distinct-retain : (p : ℕ → Bool) (ids : List ℕ) → Distinct ids → Distinct (retain p ids)
unfolding retain
Distinct-retain p [] h = tt
Distinct-retain p (x ∷ xs) h = ground (arith, not_taken-retain x p xs h.0, Distinct-retain p xs h.1)

updated-free :
    (next : ℕ) (ids : List ℕ)
    → is_taken ids next ≡ false
    → updated (record { next = next; ids = ids }) ≡ some (incr next)
unfolding updated skip_taken
updated-free next ids h = ground arith

-- Before the counter wraps, an allocation succeeds with the counter's value, which is not in use;
-- it is in use afterwards, with the ids that were, and the counter moves on by one.
pub next_id-IsFresh :
    (g : IdGen)
    → IsFresh g
    → (next_id g ≡ ok (g.next, record { next = g.next + 1; ids = g.next ∷ g.ids }))
      × (is_taken g.ids g.next ≡ false)
unfolding next_id
next_id-IsFresh g v =
    let free = AllBelow-not_taken g.next g.ids v.below in
    (ground (arith, updated-free g.next g.ids free), free)

-- The state after an allocation before the counter wraps.
abbrev allocated : IdGen → IdGen
allocated g = record { next = g.next + 1; ids = g.next ∷ g.ids }

allocated-IsFresh : (g : IdGen) → IsFresh g → g.next + 1 < usize_max → IsFresh (allocated g)
allocated-IsFresh g v h = record {
  below = (omega arith, AllBelow-mono g.next (g.next + 1) g.ids (omega arith) v.below);
  distinct = (AllBelow-not_taken g.next g.ids v.below, v.distinct);
  fits = omega (arith, v.fits);
  in_range = h;
}

release_id-IsFresh : (id : ℕ) (g : IdGen) → IsFresh g → IsFresh (release_id id g)
unfolding release_id
release_id-IsFresh id g v = record {
  below = AllBelow-retain g.next (λ k. not (k == id)) g.ids v.below;
  distinct = Distinct-retain (λ k. not (k == id)) g.ids v.distinct;
  fits = omega (arith, v.fits, length-retain-le (λ k. not (k == id)) g.ids);
  in_range = v.in_range;
}

-- A history of creations and drops that is too short to bring the counter to its last value never
-- panics, and leaves the ids in use distinct and below the counter.
pub run-IsFresh :
    (cs : List Call) (g : IdGen)
    → IsFresh g
    → g.next + length cs < usize_max
    → (g' : IdGen) × (run cs g ≡ ok g') × IsFresh g'
unfolding run release_id
run-IsFresh [] g v h = (g, refl, v)
run-IsFresh (create ∷ cs) g v h =
    rw ((next_id-IsFresh g v).0)
      (run-IsFresh cs (allocated g) (allocated-IsFresh g v (omega arith)) (omega arith))
run-IsFresh (drop id ∷ cs) g v h =
    run-IsFresh cs (release_id id g) (release_id-IsFresh id g v)
      (omega (arith, next-release_id id g))
  where
    next-release_id : (id : ℕ) (g : IdGen) → (release_id id g).next ≡ g.next
    next-release_id id g = refl

-- `fetch_update` returns the counter's old value, which the search does not test: whenever the
-- counter stands at an id that is in use, that id is handed out a second time.
pub next_id_taken :
    (g : IdGen)
    → is_taken g.ids g.next ≡ true
    → g.next < usize_mod
    → length g.ids < usize_max
    → (g' : IdGen) × (next_id g ≡ ok (g.next, g')) × (g'.ids ≡ g.ids) × (g'.next ≢ g.next)
unfolding next_id updated
next_id_taken g taken h room =
    let (k, f) = skip_taken_total g.ids g.next h (omega arith) in
    (
      record { next = incr (visited g.next k); ids = g.ids },
      ground (arith, f.1, taken),
      refl,
      omega (arith, f.0),
    )
