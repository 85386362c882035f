-- ===== src/GameLogic/Stopping.antt =====
-- The game thread that `StopGame` of game_logic/game_logic.cpp waits for.
use upzp_game_process.Prelude.{
  ℕ, suc, ◌≤◌, ◌≡◌, ◌≢◌, refl, ◌∙◌, inl, inr, true, none, some, List, [], ◌∷◌, length, arith,
  Bool-cases,
}
use upzp_game_process.Doubles.{Doubles}
use upzp_game_process.Game.{Game}
use upzp_game_process.GameLogic.{
  Thread, no_thread, ticking, checking_finish, checking_terminate, ending, sending, closing,
  returned, GameLogic, act, tick, spawn_if_due, game_finished, request_stop, join,
}

-- The actions that are left once the thread is to stop.
abbrev actions_left : Thread → ℕ
actions_left ticking = 4
actions_left checking_finish = 3
actions_left checking_terminate = 2
actions_left ending = 1
actions_left sending = 2
actions_left closing = 1
actions_left returned = 0
actions_left no_thread = 0

actions_left-le : (thread : Thread) → actions_left thread ≤ 4
actions_left-le no_thread = omega arith
actions_left-le ticking = omega arith
actions_left-le checking_finish = omega arith
actions_left-le checking_terminate = omega arith
actions_left-le ending = omega arith
actions_left-le sending = omega arith
actions_left-le closing = omega arith
actions_left-le returned = omega arith

module _ {R F : Type 0} (fl : Doubles R F) where
  -- The next actions of the thread, each at its clock value and with what its database lets pass.
  unfoldable pub run_thread : List (ℕ × ℕ) → GameLogic R F → GameLogic R F
  run_thread [] l = l
  run_thread ((now, done) ∷ rest) l = elim l.game [
    | none ↦ l
    | some g ↦ run_thread rest (act fl now done l.thread g l).0
  ]

  -- A thread that is to stop, at this place or behind it.
  record Stopping (l : GameLogic R F) (left : ℕ) : Type 0 where
    stop : l.terminate ≡ true
    game : (g : Game R F) × (l.game ≡ some g)
    there : l.thread ≢ no_thread
    near : actions_left l.thread ≤ left

  tick-stop :
      (now : ℕ) (g : Game R F) (l : GameLogic R F) → (tick fl now g l).terminate ≡ l.terminate
  unfolding tick spawn_if_due
  tick-stop now g l = ground arith

  act-Stopping :
      (now done left : ℕ) (g : Game R F) (l : GameLogic R F) (thread : Thread)
      → l.game ≡ some g
      → l.terminate ≡ true
      → thread ≢ no_thread
      → l.thread ≡ thread
      → actions_left thread ≤ suc left
      → Stopping (act fl now done thread g l).0 left
  unfolding act tick
  act-Stopping now done left g l no_thread e stop there at k = absurd (there refl)
  act-Stopping now done left g l returned e stop there at k = record {
    stop = stop;
    game = (g, e);
    there = λ f. cc;
    near = rw at (omega arith);
  }
  act-Stopping now done left g l ticking e stop there at k = record {
    stop = tick-stop now g l ∙ stop;
    game = (_, refl);
    there = λ f. cc;
    near = omega arith;
  }
  act-Stopping now done left g l checking_finish e stop there at k =
      elim (Bool-cases (game_finished g)) [
        | inl won ↦
            rw won (record { stop = stop; game = (g, e); there = λ f. cc; near = omega arith })
        | inr more ↦
            rw more (record { stop = stop; game = (g, e); there = λ f. cc; near = omega arith })
      ]
  act-Stopping now done left g l checking_terminate e stop there at k =
      rw stop (record { stop = refl; game = (g, e); there = λ f. cc; near = omega arith })
  act-Stopping now done left g l ending e stop there at k =
      rw stop (record { stop = refl; game = (g, e); there = λ f. cc; near = omega arith })
  act-Stopping now done left g l sending e stop there at k = record {
    stop = stop;
    game = (g, e);
    there = λ f. cc;
    near = omega arith;
  }
  act-Stopping now done left g l closing e stop there at k = record {
    stop = stop;
    game = (g, e);
    there = λ f. cc;
    near = omega arith;
  }

  at_end : (thread : Thread) → thread ≢ no_thread → actions_left thread ≤ 0 → thread ≡ returned
  at_end no_thread there k = absurd (there refl)
  at_end returned there k = refl
  at_end ticking there k = absurd (omega arith)
  at_end checking_finish there k = absurd (omega arith)
  at_end checking_terminate there k = absurd (omega arith)
  at_end ending there k = absurd (omega arith)
  at_end sending there k = absurd (omega arith)
  at_end closing there k = absurd (omega arith)

  run_thread-Stopping :
      (times : List (ℕ × ℕ)) (l : GameLogic R F)
      → Stopping l (length times)
      → (run_thread times l).thread ≡ returned
  unfolding run_thread
  run_thread-Stopping [] l s = at_end l.thread s.there s.near
  run_thread-Stopping ((now, done) ∷ rest) l s =
      let (g, e) = s.game in
      rw (e, run_thread)
        (run_thread-Stopping rest (act fl now done l.thread g l).0
          (act-Stopping now done (length rest) g l l.thread e s.stop s.there refl s.near))

  -- After `StopGame` has asked a game thread to stop, four actions of that thread end it wherever it
  -- stands, whatever the clock and the database do, so the wait of `StopGame` comes to an end.
  pub request_stop-ends :
      (times : List (ℕ × ℕ)) (l : GameLogic R F) (g : Game R F)
      → l.game ≡ some g
      → l.thread ≢ no_thread
      → 4 ≤ length times
      → let after = run_thread times (request_stop l) in
        join after ≡ some (record after { thread = no_thread })
  unfolding request_stop join
  request_stop-ends times l g e there enough =
      let most = actions_left-le l.thread in
      let ended =
        run_thread-Stopping times (request_stop l)
          (record { stop = refl; game = (g, e); there = there; near = omega arith }) in
      rw ended refl
