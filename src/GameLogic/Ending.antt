-- ===== src/GameLogic/Ending.antt =====
-- The game thread of game_logic/game_logic.cpp behind a victory.
use upzp_game_process.Prelude.{
  ℕ, suc, ◌-◌, ltb, ◌≤◌, ◌≡◌, ◌≢◌, refl, inl, inr, true, some, List, [], ◌∷◌, length, arith,
  Bool-cases,
}
use upzp_game_process.Doubles.{Doubles}
use upzp_game_process.Game.{Game}
use upzp_game_process.Game.History.{IsFair, spawns, ticks, call, call-IsFair}
use upzp_game_process.GameLogic.{
  Thread, no_thread, ticking, checking_finish, checking_terminate, ending, sending, closing,
  returned, GameLogic, act, tick, tick_seconds, nanoseconds, spawn_if_due, game_finished,
}
use upzp_game_process.GameLogic.Victory.{call-wins}
use upzp_game_process.GameLogic.Stopping.{run_thread}

-- The most actions that are left once a team has won.
abbrev actions_left : Thread → ℕ
actions_left ticking = 5
actions_left checking_finish = 4
actions_left checking_terminate = 6
actions_left ending = 3
actions_left sending = 2
actions_left closing = 1
actions_left returned = 0
actions_left no_thread = 0

actions_left-le : (thread : Thread) → actions_left thread ≤ 6
actions_left-le no_thread = omega arith
actions_left-le ticking = omega arith
actions_left-le checking_finish = omega arith
actions_left-le checking_terminate = omega arith
actions_left-le ending = omega arith
actions_left-le sending = omega arith
actions_left-le closing = omega arith
actions_left-le returned = omega arith

module _ {R F : Type 0} (fl : Doubles R F) where
  -- A game that is won, and its thread at this place or behind it.
  record Won (l : GameLogic R F) (g : Game R F) (left : ℕ) : Type 0 where
    here : l.game ≡ some g
    fair : IsFair g
    won : game_finished g ≡ true
    there : l.thread ≢ no_thread
    near : actions_left l.thread ≤ left

  spawn-wins :
      (now : ℕ) (g : Game R F) (l : GameLogic R F)
      → IsFair g
      → game_finished g ≡ true
      → IsFair (spawn_if_due fl now l g).1 × (game_finished (spawn_if_due fl now l g).1 ≡ true)
  unfolding spawn_if_due call
  spawn-wins now g l fair won =
      elim (Bool-cases
        (ltb (nanoseconds l.point_box_spawn_period) (now - l.last_point_box_spawn))) [
          | inl due ↦ rw due (call-IsFair fl spawns g fair, call-wins fl spawns g fair won)
          | inr early ↦ rw early (fair, won)
        ]

  act-Won :
      (now done left : ℕ) (g : Game R F) (l : GameLogic R F) (thread : Thread)
      → l.game ≡ some g
      → IsFair g
      → game_finished g ≡ true
      → thread ≢ no_thread
      → l.thread ≡ thread
      → actions_left thread ≤ suc left
      → (h : Game R F) × Won (act fl now done thread g l).0 h left
  unfolding act tick call
  act-Won now done left g l no_thread e fair won there at k = absurd (there refl)
  act-Won now done left g l returned e fair won there at k =
      (g, record { here = e; fair = fair; won = won; there = λ f. cc; near = rw at (omega arith) })
  act-Won now done left g l ticking e fair won there at k =
      let (spawned_fair, still) = spawn-wins now g l fair won in
      let moves = ticks (tick_seconds fl) in
      (
        call fl moves (spawn_if_due fl now l g).1,
        record {
          here = refl;
          fair = call-IsFair fl moves (spawn_if_due fl now l g).1 spawned_fair;
          won = call-wins fl moves (spawn_if_due fl now l g).1 spawned_fair still;
          there = λ f. cc;
          near = omega arith;
        },
      )
  act-Won now done left g l checking_finish e fair won there at k =
      (g, rw won (record { here = e; fair = fair; won = won; there = λ f. cc; near = omega arith }))
  act-Won now done left g l checking_terminate e fair won there at k = (
    g,
    elim (Bool-cases l.terminate) [
      | inl stop ↦
          rw stop (record { here = e; fair = fair; won = won; there = λ f. cc; near = omega arith })
      | inr more ↦
          rw more (record { here = e; fair = fair; won = won; there = λ f. cc; near = omega arith })
    ],
  )
  act-Won now done left g l ending e fair won there at k = (
    g,
    elim (Bool-cases l.terminate) [
      | inl stop ↦
          rw stop (record { here = e; fair = fair; won = won; there = λ f. cc; near = omega arith })
      | inr more ↦
          rw more (record { here = e; fair = fair; won = won; there = λ f. cc; near = omega arith })
    ],
  )
  act-Won now done left g l sending e fair won there at k =
      (g, record { here = e; fair = fair; won = won; there = λ f. cc; near = omega arith })
  act-Won now done left g l closing e fair won there at k =
      (g, record { here = e; fair = fair; won = won; there = λ f. cc; near = omega arith })

  at_end : (thread : Thread) → thread ≢ no_thread → actions_left thread ≤ 0 → thread ≡ returned
  at_end no_thread there k = absurd (there refl)
  at_end returned there k = refl
  at_end ticking there k = absurd (omega arith)
  at_end checking_finish there k = absurd (omega arith)
  at_end checking_terminate there k = absurd (omega arith)
  at_end ending there k = absurd (omega arith)
  at_end sending there k = absurd (omega arith)
  at_end closing there k = absurd (omega arith)

  run_thread-Won :
      (times : List (ℕ × ℕ)) (l : GameLogic R F) (g : Game R F)
      → Won l g (length times)
      → (run_thread fl times l).thread ≡ returned
  unfolding run_thread
  run_thread-Won [] l g w = at_end l.thread w.there w.near
  run_thread-Won ((now, done) ∷ rest) l g w =
      let (h, later) =
        act-Won now done (length rest) g l l.thread w.here w.fair w.won w.there refl w.near in
      rw (w.here, run_thread) (run_thread-Won rest (act fl now done l.thread g l).0 h later)

  -- A fair game that one of its teams has won comes to its end: six actions of its thread end it
  -- wherever it stands, whatever the clock and the database do and whether it is to stop or not.
  pub run_thread-ends :
      (times : List (ℕ × ℕ)) (l : GameLogic R F) (g : Game R F)
      → l.game ≡ some g
      → IsFair g
      → game_finished g ≡ true
      → l.thread ≢ no_thread
      → 6 ≤ length times
      → (run_thread fl times l).thread ≡ returned
  run_thread-ends times l g e fair won there enough =
      let most = actions_left-le l.thread in
      run_thread-Won times l g
        (record { here = e; fair = fair; won = won; there = there; near = omega arith })
