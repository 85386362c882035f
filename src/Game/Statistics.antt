-- ===== src/Game/Statistics.antt =====
-- Which rows of the players' statistics reach the database.
use upzp_game_process.Prelude.{ℕ, ◌≡◌, refl, ap, List, [], ◌∷◌, ◌++◌, map}
use upzp_game_process.Doubles.{Doubles}
use upzp_game_process.Player.{Player}
use upzp_game_process.Game.{
  Game, PlayerRow, PlayerStatement, executed, dropped, player_row, send_players_statistics,
}

-- The rows of the statements that are executed.
abbrev pub executed_rows : List PlayerStatement → List PlayerRow
executed_rows [] = []
executed_rows (executed row ∷ rest) = row ∷ executed_rows rest
executed_rows (dropped row ∷ rest) = executed_rows rest

module _ {R F : Type 0} (fl : Doubles R F) (game_id : ℕ) where
  executed_rows-red :
      (reds blues : List (Player R F))
      → executed_rows (
          map (λ p. executed (player_row fl game_id p)) reds
          ++ map (λ p. dropped (player_row fl game_id p)) blues)
        ≡ map (player_row fl game_id) reds
  executed_rows-red [] [] = refl
  executed_rows-red [] (p ∷ ps) = executed_rows-red [] ps
  executed_rows-red (p ∷ ps) blues = ap (◌∷◌ (player_row fl game_id p)) (executed_rows-red ps blues)

  -- The rows that are executed are those of the red players, in their order, whatever players the
  -- blue team has.
  pub send_players_statistics_red :
      (g : Game R F)
      → executed_rows (send_players_statistics fl game_id g)
        ≡ map (player_row fl game_id) g.red_team.players
  unfolding send_players_statistics
  send_players_statistics_red g = executed_rows-red g.red_team.players g.blue_team.players
