-- ===== src/Backend/Winit/Start.antt =====
-- src/state/mod.rs, src/backend/mod.rs and src/backend/winit/mod.rs: the start leaves the compositor
-- ready for events.
use electrum.Prelude.{
  ==-refl, any, ok, ◌≡◌, refl, ◌∙◌, subst, true, Option, none, some, [], ◌∷◌, arith,
}
use electrum.Smithay.{Output, Seat, has, Smithay}
use electrum.Smithay.Geometry.{Size}
use electrum.World.{
  create_global, add_mode, set_preferred, change_mode, ping_events, World, Env, emit, set_seat,
}
use electrum.Workspace.{new_workspace}
use electrum.Shell.Outputs.{add_output_lem, refresh_outputs_lem}
use electrum.Shell.Common.{CommonState}
use electrum.State.Start.{new_shell, new_state}
use electrum.Input.Seats.{with_slots, add_seat}
use electrum.Input.Events.Ready.{HasDevices, IsReady}
use electrum.Backend.{FrameState}
use electrum.Backend.Winit.{winit, init_winit, init_backend}

slot_is_some :
    (sm : Smithay) {A : Type 0} (o : Option A) (a : A)
    → (b : A) × ((sm.insert_if_missing o a).0 ≡ some b)
slot_is_some sm none a = (a, rw (sm.insert_missing a) refl)
slot_is_some sm (some b) a = (b, rw (sm.insert_present b a) refl)

only_seat : (seat q : Seat) → has (seat ∷ seat ∷ []) q ≡ true → seat ≡ q
unfolding any
only_seat seat q k = ground arith

module _ {sm : Smithay} where
  -- The slots of a seat after `add_seat`.
  add_seat_lem :
      (env : Env sm) (d : World sm) (seat : Seat)
      → env.add_keyboard seat ≡ true
      → (d' : World sm) × (add_seat env d seat ≡ ok d') × HasDevices d' seat
  unfolding add_seat with_slots
  add_seat_lem env d seat kb =
      let (m, e) = slot_is_some sm (d.seat_data seat).devices [] in
      (set_seat d seat (with_slots (d.seat_data seat)), rw kb refl, (m, rw (==-refl seat) e))

  module _ (env : Env sm) (o : Output) where
    -- The state that `State::new` and the backend make is ready for events.
    pub init_backend-IsReady :
        (d : World sm) (seat : Seat) (empty : sm.Space) (size : Size)
        → env.add_keyboard seat ≡ true
        → (c : CommonState sm) × (d1 : World sm) × (s : FrameState) × (c' : CommonState sm)
          × (d2 : World sm) × (new_state env d seat empty ≡ ok (c, d1))
          × (init_backend env none c d1 o (some size) ≡ ok (some (winit o s, c', d2)))
          × (c'.seats ≡ seat ∷ [])
          × IsReady o c' d2
    unfolding new_state new_shell init_backend init_winit
    init_backend-IsReady d seat empty size kb =
        let (d1, adds, slots) = add_seat_lem env d seat kb in
        let c : CommonState sm = record {
          shell = new_shell empty;
          seats = seat ∷ [];
          last_active_seat = seat;
        } in
        let d2 = emit (emit (emit d1 (create_global o)) (add_mode o size)) (set_preferred o size) in
        let (sh1, ws1, maps, first1, outs1) =
          add_output_lem env c.shell (new_workspace sm 0 empty) [] o refl in
        let (sh2, ws2, remaps, first2, outs2) = refresh_outputs_lem env sh1 ws1 first1 in
        (
          c,
          d1,
          record { age_reset = 0; did_custom_rendering = none },
          record c { shell = sh2 },
          emit (emit d2 (change_mode o size)) ping_events,
          rw adds refl,
          rw maps (rw remaps refl),
          refl,
          record {
            devices = λ q k. subst (HasDevices d1) (only_seat seat q k) slots;
            workspace = (ws2, first2);
            outputs = outs2 ∙ outs1;
          },
        )
