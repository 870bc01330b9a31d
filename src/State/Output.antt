-- ===== src/State/Output.antt =====
-- src/state/output.rs: the geometry of an output, and the output that a seat is on.
use electrum.Prelude.{if◌then◌else◌, Outcome, ok, ◌>>=◌, unwrap, Option, none, some, List, [], ◌∷◌}
use electrum.Prelude.Int.{pos}
use electrum.Smithay.{Output, Seat, Smithay}
use electrum.Smithay.Geometry.{Size, Rectangle}
use electrum.World.{World, Env, set_seat}
use electrum.Shell.{Shell}

-- The mode's size, or nothing at all.
abbrev mode_or_zero : Option Size → Size
mode_or_zero none = record { w = pos 0; h = pos 0 }
mode_or_zero (some m) = m

abbrev pub first_output : List Output → Option Output
first_output [] = none
first_output (o ∷ os) = some o

module _ {sm : Smithay} (env : Env sm) where
  -- `OutputExt::geometry`
  unfoldable pub geometry : Output → Rectangle
  geometry o = record {
    loc = env.current_location o;
    size =
        sm.to_logical_round
          (sm.transform_size (env.current_transform o) (mode_or_zero (env.current_mode o)))
          (env.fractional_scale o);
  }

  unfoldable pub active_output : Shell sm → World sm → Seat → Outcome Output
  active_output sh d seat = elim (d.seat_data seat).active_output [
    | some o ↦ ok o
    | none ↦ unwrap (first_output sh.outputs)
  ]

  unfoldable pub set_active_output : World sm → Seat → Output → Outcome (World sm)
  set_active_output d seat o = do
    let (slot, fresh) = sm.insert_if_missing (d.seat_data seat).active_output o
    let d' = set_seat d seat (record (d.seat_data seat) { active_output = slot })
    if fresh then ok d' else (do
      _ ← unwrap slot
      ok (set_seat d' seat (record (d'.seat_data seat) { active_output = some o })))
