-- ===== src/Backend/Frames.antt =====
-- src/backend/: how long a frame does not trust the age of its buffer.
use electrum.Prelude.{
  ltb, if◌then◌else◌, Bool-cases, ok, unwrap_or, ℕ, ◌-◌, ◌%◌, ◌≡◌, refl, sym, ◌∙◌, inl, inr, Bool,
  true, false, not, Option, none, some, List, [], ◌∷◌, arith,
}
use electrum.Smithay.{Smithay}
use electrum.Backend.{
  FrameState, Buffer, differs, needs_buffer_reset, take_age, render_output, render_all,
}

-- The ages of the buffers that could be bound, the first `n` of them replaced by 0.
abbrev pub ages_from : ℕ → List Buffer → List ℕ
ages_from n [] = []
ages_from n (b ∷ bs) =
    let rest = ages_from n bs in
    let later = ages_from (n - 1) bs in
    if not b.binds then rest else (if ltb 0 n then 0 else unwrap_or b.buffer_age 0 % 256) ∷ later

module _ (sm : Smithay) where
  -- The frames that will still be drawn from age 0.
  abbrev pub pending_resets : FrameState → Bool → ℕ
  pending_resets s will =
      if differs (unwrap_or s.did_custom_rendering false) will then 3 else s.age_reset

  needs_buffer_reset_lem :
      (slot : Option Bool) (will : Bool)
      → needs_buffer_reset sm slot will ≡ ok (differs (unwrap_or slot false) will, some will)
  unfolding needs_buffer_reset
  needs_buffer_reset_lem none will = rw (needs_buffer_reset, sm.insert_missing false) refl
  needs_buffer_reset_lem (some old) will = rw (needs_buffer_reset, sm.insert_present old false) refl

  differs_self : (b : Bool) → differs b b ≡ false
  differs_self true = refl
  differs_self false = refl

  -- The state in which the output shows what it showed before.
  abbrev pub settled : ℕ → Bool → FrameState
  settled n will = record { age_reset = n; did_custom_rendering = some will }

  pub render_output-eq :
      (s : FrameState) (will : Bool) (b : Buffer)
      → let s1 = settled (pending_resets s will) will in
        render_output sm s will b
        ≡ ok (if b.binds then (some (take_age sm s1 b).0, (take_age sm s1 b).1) else (none, s1))
  unfolding render_output
  render_output-eq s will b = rw (needs_buffer_reset_lem s.did_custom_rendering will) refl

  ages-settled :
      (n : ℕ) (will : Bool) (bs : List Buffer)
      → (s' : FrameState) × (render_all sm (settled n will) will bs ≡ ok (ages_from n bs, s'))
  unfolding render_all take_age
  ages-settled n will [] = (settled n will, refl)
  ages-settled n will (b ∷ bs) =
      let first : render_output sm (settled n will) will b
          ≡ ok (
              if b.binds
              then (some (take_age sm (settled n will) b).0, (take_age sm (settled n will) b).1)
              else (none, settled n will)) =
        render_output-eq (settled n will) will b ∙ rw (differs_self will) refl in
      let (same, e) = ages-settled n will bs in
      let (less, f) = ages-settled (n - 1) will bs in
      elim (Bool-cases b.binds) [
        | inr unbound ↦ (same, rw (render_all, first) (rw unbound (rw e refl)))
        | inl bound ↦ elim (Bool-cases (ltb 0 n)) [
          | inl more ↦ (less, rw (render_all, first) (rw (bound, take_age, more) (rw f refl)))
          | inr last ↦
              let zero : n - 1 ≡ n = ground (arith, last) in
              (same, rw (render_all, first) (rw (bound, take_age, last) (rw (e, zero) refl)))
        ]
      ]

  -- While the output keeps showing a fullscreen window, or keeps showing the desktop, the frames run
  -- through. If it showed the other before, the first three frames that get a buffer are drawn from
  -- age 0, and all others from the age of their buffer; otherwise as many are drawn from age 0 as
  -- were still to come. A frame without a buffer uses up none of them.
  pub render_all-ages :
      (s : FrameState) (will : Bool) (bs : List Buffer)
      → (s' : FrameState) × (render_all sm s will bs
          ≡ ok (ages_from (pending_resets s will) bs, s'))
  unfolding render_all
  render_all-ages s will [] = (s, refl)
  render_all-ages s will (b ∷ bs) =
      let n = pending_resets s will in
      let (s', e) = ages-settled n will (b ∷ bs) in
      let same : render_output sm s will b ≡ render_output sm (settled n will) will b =
        render_output-eq s will b
        ∙ sym (render_output-eq (settled n will) will b ∙ rw (differs_self will) refl) in
      (s', rw (render_all, same) e)
