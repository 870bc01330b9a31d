-- ===== src/Id.antt =====
-- src/id.rs: the functions that `id_gen!` declares, and the release of an id when a `SeatId` is
-- dropped (src/input/mod.rs).
pub mod Search
pub mod Alloc
use electrum.Prelude.{
  ◌==◌, if◌then◌else◌, length, any, retain, Outcome, ok, panic, ◌>>=◌, unwrap, ℕ, zero, suc, ◌+◌,
  ◌-◌, ◌%◌, ◌^◌, Bool, not, Option, none, some, List, [], ◌∷◌,
}

-- Two to the number of bits of a `usize`.
abbrev pub usize_mod : ℕ
usize_mod = 2 ^ 64

-- `usize::MAX`
abbrev pub usize_max : ℕ
usize_max = usize_mod - 1

-- `id += 1` in the release profile.
abbrev pub incr : ℕ → ℕ
incr id = (id + 1) % usize_mod

-- The two statics that the macro declares: the atomic counter and the set of ids in use.
pub record IdGen : Type 0 where
  pub next : ℕ
  pub ids : List ℕ

abbrev pub is_taken : List ℕ → ℕ → Bool
is_taken ids id = any (λ k. k == id) ids

-- `while ids.iter().any(|k| *k == id) { id += 1; }`
unfoldable pub skip_taken : ℕ → List ℕ → ℕ → Option ℕ
skip_taken zero ids id = none
skip_taken (suc fuel) ids id =
    let rest = skip_taken fuel ids (incr id) in if is_taken ids id then rest else some id

-- The closure of `fetch_update`: the value that is stored. The fuel is one more than the number
-- of ids in use.
unfoldable pub updated : IdGen → Option ℕ
updated g = elim (skip_taken (suc (length g.ids)) g.ids g.next) [
  | none ↦ none
  | some free ↦ some (incr free)
]

-- `next_seat_id`. The lock is held throughout, so the closure runs once; `fetch_update` returns
-- the value that the counter had before. A `HashSet` insertion of an id that is there changes
-- nothing.
unfoldable pub next_id : IdGen → Outcome (ℕ × IdGen)
next_id g = if length g.ids == usize_max then panic else (do
  stored ← unwrap (updated g)
  let id = g.next
  ok (id, record { next = stored; ids = if is_taken g.ids id then g.ids else id ∷ g.ids }))

-- `SEAT_IDS.lock().unwrap().remove(&self.0)`
unfoldable pub release_id : ℕ → IdGen → IdGen
release_id id g = record g { ids = retain (λ k. not (k == id)) g.ids }

-- The statics as they are initialised.
abbrev pub initial : IdGen
initial = record { next = 0; ids = [] }

-- What the seats ask of the generator: a seat is created or dropped.
pub data Call : Type 0 where
  create : Call
  drop : ℕ → Call

unfoldable pub run : List Call → IdGen → Outcome IdGen
run [] g = ok g
run (create ∷ cs) g = do (_, g') ← next_id g; run cs g'
run (drop id ∷ cs) g = run cs (release_id id g)
