-- ===== src/Tests/Clock.antt =====
-- The clock of the game.
use upzp_game_process.Prelude.{ℕ, refl, true, some, List, [], ◌∷◌, arith}
use upzp_game_process.Client.{car}
use upzp_game_process.GameLogic.{GameLogic, new_game_logic}
use upzp_game_process.GameLogic.Turns.{Turn, ticks_at, joins, steers, play}
use upzp_game_process.GameLogic.Spawning.{Spawns, play-Spawns}
use upzp_game_process.Tests.Toys.{whole_numbers}
use upzp_game_process.Tests.Play.{empty_game}

-- A point box every second.
abbrev every_second : GameLogic ℕ ℕ
every_second = record (new_game_logic 0) { game = some empty_game; point_box_spawn_period = 1 }

-- The third tick is late.
abbrev turns : List (Turn ℕ)
turns =
    joins (record { name = "Anna"; id = 1; vehicle = car; ip_v4 = "10.0.0.1"; port = 5100 }) true
    ∷ ticks_at 600_000_000
    ∷ steers (record { id = 1; move = true; direction = 0 })
    ∷ ticks_at 1_200_000_000
    ∷ ticks_at 1_900_000_000
    ∷ ticks_at 2_300_000_000
    ∷ []

play-Spawns_example :
    Spawns whole_numbers 1_000_000_000 700_000_000 0 turns empty_game every_second
      (play whole_numbers turns every_second)
unfolding new_game_logic
play-Spawns_example =
    play-Spawns whole_numbers turns 1_000_000_000 700_000_000 0 empty_game every_second refl refl
      (omega arith) (omega arith)
      (
        omega arith,
        omega arith,
        (omega arith, omega arith, (omega arith, omega arith, (omega arith, omega arith, tt))),
      )
