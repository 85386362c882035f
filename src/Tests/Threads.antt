-- ===== src/Tests/Threads.antt =====
-- The game thread, and the statistics.
use upzp_game_process.Prelude.{ℕ, ◌≡◌, ◌⊎◌, refl, true, false, some, List, [], ◌∷◌, arith}
use upzp_game_process.Prelude.Int.{pos}
use upzp_game_process.Client.{car}
use upzp_game_process.Player.{Coordinates, new_player}
use upzp_game_process.Game.{
  Draw, Game, add_player_to_game, new_game as construct, calculate_movement, move_all,
  blue_team_won,
}
use upzp_game_process.Team.{score, score_from}
use upzp_game_process.GameLogic.{
  no_thread, ticking, returned, GameLogic, Statement, new_game_logic, new_game, start_game, act,
  tick, spawn_if_due, game_finished, request_stop, join,
}
use upzp_game_process.GameLogic.Threads.{WonGame}
use upzp_game_process.GameLogic.Steps.{
  creates, starts, acts, Reaches, here, next, statements_of_winner,
}
use upzp_game_process.GameLogic.Stopping.{run_thread, request_stop-ends}
use upzp_game_process.Game.History.{joins, ticks, call, run}
use upzp_game_process.GameLogic.Victory.{stays_finished}
use upzp_game_process.GameLogic.Ending.{run_thread-ends}
use upzp_game_process.Tests.Toys.{whole_numbers}

abbrev center : Coordinates ℕ
center = record { longitude = 17; latitude = 51 }

abbrev no_draws : ℕ → Draw ℕ
no_draws n = record { distance = 0; angle = 0 }

-- No points are needed to win.
abbrev short_game : Game ℕ ℕ
short_game = construct whole_numbers (pos 0) center 50 no_draws

abbrev created : GameLogic ℕ ℕ
created = new_game whole_numbers center 50 "WROCLAW" 1 0 10 no_draws (new_game_logic 0)

abbrev started : GameLogic ℕ ℕ
started = record created {
  start_point = 5;
  game_started = true;
  terminate = false;
  thread = ticking;
}

abbrev ticked : GameLogic ℕ ℕ
ticked = (act whole_numbers 6 0 started.thread short_game started).0

abbrev decided : GameLogic ℕ ℕ
decided = (act whole_numbers 7 0 ticked.thread short_game ticked).0

abbrev to_send : GameLogic ℕ ℕ
to_send = (act whole_numbers 8 0 decided.thread short_game decided).0

abbrev sent : GameLogic ℕ ℕ × List Statement
sent = act whole_numbers 9 1 to_send.thread short_game to_send

to_started : Reaches whole_numbers (new_game_logic 0) started
unfolding new_game_logic new_game start_game
to_started =
    next (next here (creates center 50 "WROCLAW" 1 0 10 no_draws refl)) (starts 5 started refl)

to_sending : Reaches whole_numbers (new_game_logic 0) to_send
unfolding new_game_logic new_game act tick spawn_if_due calculate_movement move_all
to_sending =
    next (next (next to_started (acts 6 0 short_game refl)) (acts 7 0 short_game refl))
      (acts 8 0 short_game refl)

statements_of_winner_example : (sent.1 ≡ []) ⊎ WonGame to_send.game
unfolding new_game_logic new_game act tick spawn_if_due calculate_movement move_all game_finished
    blue_team_won score score_from
statements_of_winner_example =
    statements_of_winner whole_numbers 0 to_send sent.0 sent.1 to_sending (acts 9 1 short_game refl)

request_stop-ends_example :
    let after =
      run_thread whole_numbers ((6, 0) ∷ (7, 0) ∷ (8, 0) ∷ (9, 0) ∷ []) (request_stop started) in
    join after ≡ some (record after { thread = no_thread })
unfolding new_game
request_stop-ends_example =
    request_stop-ends whole_numbers ((6, 0) ∷ (7, 0) ∷ (8, 0) ∷ (9, 0) ∷ []) started short_game refl
      (λ e. cc) (omega arith)

abbrev one_each : Game ℕ ℕ
one_each = record short_game {
  red_team = record { players = new_player whole_numbers "Anna" 1 car ∷ [] };
  blue_team = record { players = new_player whole_numbers "Piotr" 2 car ∷ [] };
}

run_thread-ends_example :
    (run_thread whole_numbers
      ((6, 0) ∷ (7, 0) ∷ (8, 0) ∷ (9, 0) ∷ (10, 0) ∷ (11, 0) ∷ [])
      started).thread
    ≡ returned
unfolding new_game game_finished blue_team_won score score_from
run_thread-ends_example =
    run_thread-ends whole_numbers ((6, 0) ∷ (7, 0) ∷ (8, 0) ∷ (9, 0) ∷ (10, 0) ∷ (11, 0) ∷ [])
      started short_game refl (record { red = tt; blue = tt; boxes = tt }) refl (λ e. cc)
      (omega arith)

stays_finished_example :
    game_finished (
      run whole_numbers
        (joins "Piotr" 2 car false ∷ ticks 50 ∷ [])
        (run whole_numbers (joins "Anna" 1 car true ∷ []) short_game))
    ≡ true
unfolding run call game_finished blue_team_won score score_from add_player_to_game
stays_finished_example =
    stays_finished whole_numbers (pos 0) center 50 no_draws (joins "Anna" 1 car true ∷ [])
      (joins "Piotr" 2 car false ∷ ticks 50 ∷ []) refl
