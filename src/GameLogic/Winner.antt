-- ===== src/GameLogic/Winner.antt =====
-- The scores of a game under the calls of the other threads (game_logic/game_logic.cpp).
use Prim.Native.String.{String}
use upzp_game_process.Prelude.{ℕ, ◌≡◌, refl, Bool, true, false}
use upzp_game_process.Prelude.Int.{int_laws}
use upzp_game_process.Doubles.{Doubles}
use upzp_game_process.Client.{VehicleType, PlayerInput}
use upzp_game_process.Player.{new_player, set_position}
use upzp_game_process.Team.{Team, score, add_player, set_player_input}
use upzp_game_process.Game.{
  Game, add_player_to_game, set_input_in_game, red_team_won, blue_team_won,
}
use upzp_game_process.Game.Points.{
  points_total, score_lem, points_total-append, points_total-set_first_input,
}
use upzp_game_process.GameLogic.{game_finished}

module _ {R F : Type 0} where
  game_finished-scores :
      (g h : Game R F)
      → h.points_to_win ≡ g.points_to_win
      → score h.red_team ≡ score g.red_team
      → score h.blue_team ≡ score g.blue_team
      → game_finished h ≡ game_finished g
  unfolding game_finished red_team_won blue_team_won
  game_finished-scores g h target red blue = rw (target, red, blue) refl

  score-set_player_input :
      (input : PlayerInput F) (t : Team R F) → score (set_player_input input t) ≡ score t
  unfolding set_player_input
  score-set_player_input input t = simp score_lem (points_total-set_first_input input t.players)

  -- An input changes no score.
  pub game_finished-set_input :
      (input : PlayerInput F) (g : Game R F)
      → game_finished (set_input_in_game input g) ≡ game_finished g
  unfolding set_input_in_game
  game_finished-set_input input g =
      game_finished-scores g (set_input_in_game input g) refl
        (score-set_player_input input g.red_team) (score-set_player_input input g.blue_team)

module _ {R F : Type 0} (fl : Doubles R F) where
  -- A new player brings no points.
  pub game_finished-add_player :
      (name : String) (id : ℕ) (vehicle : VehicleType) (red : Bool) (g : Game R F)
      → game_finished (add_player_to_game fl name id vehicle red g) ≡ game_finished g
  unfolding add_player_to_game add_player set_position new_player points_total
  game_finished-add_player name id vehicle true g =
      game_finished-scores g (add_player_to_game fl name id vehicle true g) refl
        (simp score_lem (rw (points_total-append g.red_team.players _) (omega int_laws))) refl
  game_finished-add_player name id vehicle false g =
      game_finished-scores g (add_player_to_game fl name id vehicle false g) refl refl
        (simp score_lem (rw (points_total-append g.blue_team.players _) (omega int_laws)))
