-- ===== src/Tests/Play.antt =====
-- Games.
use upzp_game_process.Prelude.{ℕ, ◌≡◌, map, arith, List, [], ◌∷◌, true, false}
use upzp_game_process.Prelude.Int.{pos, ◌+ℤ◌}
use upzp_game_process.Client.{car}
use upzp_game_process.Player.{Coordinates}
use upzp_game_process.Team.{score}
use upzp_game_process.Game.{
  PointBox, Draw, Game, new_game, collects, check_for_point_box, game_table,
}
use upzp_game_process.Game.PointBoxes.{remaining, gain, check_for_point_box_lem}
use upzp_game_process.Game.Points.{worth}
use upzp_game_process.Game.History.{GameCall, joins, steers, ticks, spawns, run, worth-run}
use upzp_game_process.Game.Status.{game_table_exact}
use upzp_game_process.Tests.Toys.{whole_numbers}

abbrev origin : Coordinates ℕ
origin = record { longitude = 0; latitude = 0 }

abbrev far : Coordinates ℕ
far = record { longitude = 0; latitude = 7 }

abbrev boxes : List (PointBox ℕ)
boxes =
    record { position = origin; value = pos 100 }
    ∷ record { position = far; value = pos 100 }
    ∷ record { position = origin; value = pos 50 }
    ∷ []

check_for_point_box_lem_example : check_for_point_box whole_numbers origin origin boxes ≡ (
  remaining (collects whole_numbers origin origin) boxes,
  gain (collects whole_numbers origin origin) boxes,
)
check_for_point_box_lem_example = check_for_point_box_lem whole_numbers origin origin boxes

abbrev draws : ℕ → Draw ℕ
draws n = record { distance = 0; angle = 0 }

abbrev pub empty_game : Game ℕ ℕ
empty_game = new_game whole_numbers (pos 1000) origin 50 draws

-- Two players, two point boxes, and an input between two ticks.
abbrev calls : List (GameCall ℕ ℕ)
calls =
    joins "Anna" 1 car true
    ∷ joins "Piotr" 2 car false
    ∷ spawns
    ∷ ticks 50
    ∷ steers (record { id = 1; move = true; direction = 0 })
    ∷ spawns
    ∷ ticks 50
    ∷ []

worth-run_example : worth (run whole_numbers calls empty_game) ≡ worth empty_game +ℤ pos 200
worth-run_example = worth-run whole_numbers calls empty_game

game_table_exact_example :
    let g = run whole_numbers calls empty_game in
    let table = game_table 3 g in
    (table.red.points ≡ score g.red_team)
    × (table.blue.points ≡ score g.blue_team)
    × (map (λ p. p.points) table.red.players ≡ map (λ p. p.points) g.red_team.players)
    × (map (λ p. p.points) table.blue.players ≡ map (λ p. p.points) g.blue_team.players)
game_table_exact_example =
    game_table_exact whole_numbers (pos 1000) origin 50 draws calls 3 (omega arith)
