-- ===== src/Tests/Ids.antt =====
-- The id generator of src/id.rs at concrete states.
use electrum.Prelude.{any, retain, ok, ℕ, ◌≡◌, refl, ◌≢◌, [], ◌∷◌, arith}
use electrum.Id.{IdGen, skip_taken, updated, next_id, release_id, initial, create, drop, run}
use electrum.Id.Search.{FreeAt, skip_taken_total}
use electrum.Id.Alloc.{IsFresh, run-IsFresh, next_id_taken}

abbrev two_seats : IdGen
two_seats = record { next = 2; ids = 1 ∷ 0 ∷ [] }

-- The counter has come round to an id in use.
abbrev wrapped : IdGen
wrapped = record { next = 1; ids = 1 ∷ 0 ∷ [] }

two_seats-IsFresh : IsFresh two_seats
unfolding any
two_seats-IsFresh = record {
  below = omega arith;
  distinct = (refl, (refl, tt));
  fits = omega arith;
  in_range = omega arith;
}

initial-IsFresh : IsFresh initial
initial-IsFresh = record { below = tt; distinct = tt; fits = omega arith; in_range = omega arith }

first_three :
    run (create ∷ create ∷ create ∷ drop 1 ∷ []) initial
    ≡ ok (record { next = 3; ids = 2 ∷ 0 ∷ [] })
unfolding run next_id updated skip_taken release_id any retain
first_three = refl

skip_taken_total_example : (k : ℕ) × FreeAt 3 (1 ∷ 0 ∷ []) 0 k
skip_taken_total_example = skip_taken_total (1 ∷ 0 ∷ []) 0 (omega arith) (omega arith)

run-IsFresh_example : (g : IdGen) × (run (create ∷ drop 0 ∷ create ∷ []) initial ≡ ok g) × IsFresh g
run-IsFresh_example =
    run-IsFresh (create ∷ drop 0 ∷ create ∷ []) initial initial-IsFresh (omega arith)

next_id_taken_example :
    (g : IdGen) × (next_id wrapped ≡ ok (1, g)) × (g.ids ≡ 1 ∷ 0 ∷ []) × (g.next ≢ 1)
unfolding any
next_id_taken_example = next_id_taken wrapped refl (omega arith) (omega arith)
