-- ===== src/ImageViewer/Draw.antt =====
-- src/bin/image.rs: which viewers a draw draws.
use electrum.Prelude.{
  Bool-cases, Option-cases, retain, ok, Returns, ℕ, ◌≡◌, refl, ap, inl, inr, true, false, not, some,
  List, [], ◌∷◌, ◌++◌, map, arith,
}
use electrum.Prelude.Int.{ℤ, pos, ◌*ℤ◌}
use electrum.Smithay.Geometry.{wrap_i32}
use electrum.ImageViewer.{
  Chunk, ImageViewer, Call, damage_buffer, request_frame, commit, attach, Toolkit, fill, as_i32,
  get_buffer, get_canvas, is_skipped, calls_of, draw_viewer, draw,
}

-- The windows whose surfaces are committed, in their order.
unfoldable pub committed : List Call → List ℕ
committed [] = []
committed (commit w ∷ calls) = w ∷ committed calls
committed (_ ∷ calls) = committed calls

committed-append : (xs ys : List Call) → committed (xs ++ ys) ≡ committed xs ++ committed ys
unfolding committed
committed-append [] ys = refl
committed-append (commit w ∷ xs) ys = ap (λ r. w ∷ r) (committed-append xs ys)
committed-append (damage_buffer w x y ∷ xs) ys = committed-append xs ys
committed-append (request_frame w ∷ xs) ys = committed-append xs ys
committed-append (attach w b ∷ xs) ys = committed-append xs ys

module _ (k : Toolkit) where
  -- Buffers can be made, and surfaces take them.
  pub record Works : Type 0 where
    pub creates :
        (p : k.Pool) (w h s : ℤ)
        → (r : ℕ × List Chunk × k.Pool) × (k.create_buffer p w h s ≡ some r)
    pub frames : (w : ℕ) → k.frames w ≡ true
    pub attaches : (p : k.Pool) (b w : ℕ) → k.attaches p b w ≡ true

  module _ (works : Works) where
    get_buffer_total :
        (p : k.Pool) (v : ImageViewer) (stride : ℤ)
        → (r : ℕ × k.Pool) × (get_buffer k p v stride ≡ ok r)
    unfolding get_buffer
    get_buffer_total p v stride = elim (Option-cases v.buffer) [
      | inr (b, e) ↦ ((b, p), rw (get_buffer, e) refl)
      | inl e ↦
          let ((b, c, p'), made) = works.creates p (as_i32 v.width) (as_i32 v.height) stride in
          ((b, p'), rw (get_buffer, e) (rw made refl))
    ]

    get_canvas_total :
        (p : k.Pool) (v : ImageViewer) (stride : ℤ) (b : ℕ)
        → (r : ℕ × List Chunk × k.Pool) × (get_canvas k p v stride b ≡ ok r)
    unfolding get_canvas
    get_canvas_total p v stride b = elim (Option-cases (k.canvas p b)) [
      | inr (c, e) ↦ ((b, c, p), rw (get_canvas, e) refl)
      | inl e ↦
          let (r, made) = works.creates p (as_i32 v.width) (as_i32 v.height) stride in
          (r, rw (get_canvas, e) (rw made refl))
    ]

    draw_viewer_total :
        (p : k.Pool) (v : ImageViewer)
        → (p' : k.Pool) × (b : ℕ) × (draw_viewer k (some p) v
            ≡ ok (p', record v { buffer = some b; damaged = false }, calls_of k v b))
    unfolding draw_viewer
    draw_viewer_total p v =
        let stride = wrap_i32 (as_i32 v.width *ℤ pos 4) in
        let ((b, p1), buffers) = get_buffer_total p v stride in
        let ((b', c, p2), maps) = get_canvas_total p1 v stride b in
        let p3 = k.put_canvas p2 b' (fill (k.resize v.image v.width v.height) c) in
        (
          p3,
          b',
          rw buffers (rw maps (rw (works.frames v.window, works.attaches p3 b' v.window) refl)),
        )

    -- While buffers can be made, a draw commits exactly the surfaces of the viewers that are
    -- configured and damaged, each once and in their order. It keeps the windows, and a second draw
    -- finds nothing to do.
    pub draw-settles :
        (viewers : List ImageViewer) (p : k.Pool)
        → Returns
            (λ r.
              (committed r.2 ≡ map (λ v. v.window) (retain (λ v. not (is_skipped k v)) viewers))
              × (map (λ v. v.window) r.1 ≡ map (λ v. v.window) viewers)
              × (draw k r.0 r.1 ≡ ok (r.0, r.1, [])))
            (draw k (some p) viewers)
    unfolding draw committed retain
    draw-settles [] p = ((some p, [], []), refl, (refl, refl, refl))
    draw-settles (v ∷ vs) p = elim (Bool-cases (is_skipped k v)) [
      | inl e ↦
          let ((pool, vs', calls), runs, (drawn, same, settled)) = draw-settles vs p in
          (
            (pool, v ∷ vs', calls),
            rw e (rw runs refl),
            (rw e drawn, ap (λ r. v.window ∷ r) same, rw e (rw settled refl)),
          )
      | inr e ↦
          let (p', b, draws) = draw_viewer_total p v in
          let v' = record v { buffer = some b; damaged = false } in
          let ((pool, vs', calls), runs, (drawn, same, settled)) = draw-settles vs p' in
          (
            (pool, v' ∷ vs', calls_of k v b ++ calls),
            rw e (rw draws (rw runs refl)),
            (
              rw e (ap (λ r. v.window ∷ r) drawn),
              ap (λ r. v.window ∷ r) same,
              ground (arith, settled),
            ),
          )
    ]
