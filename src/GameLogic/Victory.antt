-- ===== src/GameLogic/Victory.antt =====
-- The winner of a game under every call that game_logic/game_logic.cpp makes of it.
use upzp_game_process.Prelude.{ℕ, ◌≡◌, refl, ◌∙◌, true, List, [], ◌∷◌, arith}
use upzp_game_process.Prelude.Int.{ℤ, ◌≤ℤ◌}
use upzp_game_process.Doubles.{Doubles}
use upzp_game_process.Player.{Coordinates}
use upzp_game_process.Team.{score}
use upzp_game_process.Game.{
  Game, Draw, new_game, red_team_won, blue_team_won, move_all, calculate_movement,
  generate_point_box,
}
use upzp_game_process.Game.Points.{score_lem}
use upzp_game_process.Game.History.{
  IsFair, GameCall, joins, steers, ticks, spawns, call, run, move_all-Fair, call-IsFair, run-IsFair,
}
use upzp_game_process.GameLogic.{game_finished}
use upzp_game_process.GameLogic.Winner.{game_finished-set_input, game_finished-add_player}

module _ {R F : Type 0} where
  -- With the same target, higher scores do not lose a game.
  game_finished_mono :
      (g h : Game R F)
      → h.points_to_win ≡ g.points_to_win
      → score g.red_team ≤ℤ score h.red_team
      → score g.blue_team ≤ℤ score h.blue_team
      → game_finished g ≡ true
      → game_finished h ≡ true
  unfolding game_finished red_team_won blue_team_won
  game_finished_mono g h target red blue won = rw target (ground arith)

module _ {R F : Type 0} (fl : Doubles R F) where
  pub calculate_movement-wins :
      (time : R) (g : Game R F)
      → IsFair g
      → game_finished g ≡ true
      → game_finished (calculate_movement fl time g) ≡ true
  unfolding calculate_movement
  calculate_movement-wins time g fair won =
      let first = move_all-Fair fl time g.point_boxes g.red_team.players fair.boxes fair.red in
      let left = (move_all fl time g.point_boxes g.red_team.players).0 in
      let second = move_all-Fair fl time left g.blue_team.players first.0 fair.blue in
      game_finished_mono g (calculate_movement fl time g) refl (simp score_lem first.2)
        (simp score_lem second.2) won

  pub call-wins :
      (c : GameCall R F) (g : Game R F)
      → IsFair g
      → game_finished g ≡ true
      → game_finished (call fl c g) ≡ true
  unfolding call generate_point_box game_finished red_team_won blue_team_won
  call-wins (joins name id vehicle red) g fair won =
      game_finished-add_player fl name id vehicle red g ∙ won
  call-wins (steers input) g fair won = game_finished-set_input input g ∙ won
  call-wins (ticks time) g fair won = calculate_movement-wins time g fair won
  call-wins spawns g fair won = won

  run-wins :
      (cs : List (GameCall R F)) (g : Game R F)
      → IsFair g
      → game_finished g ≡ true
      → game_finished (run fl cs g) ≡ true
  unfolding run
  run-wins [] g fair won = won
  run-wins (c ∷ cs) g fair won =
      run-wins cs (call fl c g) (call-IsFair fl c g fair) (call-wins c g fair won)

  -- A victory is never taken back: if a game that started empty is finished after some history, it is
  -- finished after every longer one.
  pub stays_finished :
      (points : ℤ) (center : Coordinates R) (radius : R) (draw : ℕ → Draw R)
      → (before after : List (GameCall R F))
      → game_finished (run fl before (new_game fl points center radius draw)) ≡ true
      → game_finished (run fl after (run fl before (new_game fl points center radius draw))) ≡ true
  stays_finished points center radius draw before after won =
      let start = new_game fl points center radius draw in
      run-wins after (run fl before start)
        (run-IsFair fl before start (record { red = tt; blue = tt; boxes = tt })) won
