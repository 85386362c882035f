-- ===== src/Game/Status.antt =====
-- What the status of a game (`GenerateFlatbuffers` of game_logic/game.cpp) tells the clients: its
-- fields for points are 32 bits wide.
use upzp_game_process.Prelude.{ℕ, ◌-◌, ◌^◌, ◌≤◌, ◌≡◌, refl, ap₂, List, [], ◌∷◌, map, arith}
use upzp_game_process.Prelude.Int.{ℤ, pos, negsuc, ◌≤ℤ◌, int_laws}
use upzp_game_process.Doubles.{Doubles}
use upzp_game_process.Player.{Coordinates, Player, to_int32, player_table}
use upzp_game_process.Team.{Team, score, team_table}
use upzp_game_process.Game.{Draw, new_game, game_table}
use upzp_game_process.Game.Points.{points_total, score_lem}
use upzp_game_process.Game.History.{
  NotNegative, FairPlayers, points_total-NotNegative, GameCall, spawned, run, run-IsFair,
  scores_bounded,
}

to_int32_lem : (a : ℤ) → NotNegative a → a ≤ℤ pos (2 ^ 31 - 1) → to_int32 a ≡ a
to_int32_lem (pos n) h k = ground arith
to_int32_lem (negsuc n) h k = absurd (omega arith)

module _ {R F : Type 0} where
  player_points_lem :
      (ps : List (Player R F))
      → FairPlayers ps
      → points_total ps ≤ℤ pos (2 ^ 31 - 1)
      → map (λ p. p.points) (map player_table ps) ≡ map (λ p. p.points) ps
  unfolding player_table points_total
  player_points_lem [] fair small = refl
  player_points_lem (p ∷ ps) fair small =
      let others = points_total-NotNegative ps fair.1 in
      ap₂ ◌∷◌ (to_int32_lem p.points fair.0 (omega (int_laws, others)))
        (player_points_lem ps fair.1 (omega (int_laws, fair.0)))

  team_table_lem :
      (t : Team R F)
      → FairPlayers t.players
      → points_total t.players ≤ℤ pos (2 ^ 31 - 1)
      → ((team_table t).points ≡ score t)
        × (map (λ p. p.points) (team_table t).players ≡ map (λ p. p.points) t.players)
  unfolding team_table
  team_table_lem t fair small = (
    rw (score_lem t)
        (to_int32_lem (points_total t.players) (points_total-NotNegative t.players fair) small),
    player_points_lem t.players fair small,
  )

module _ {R F : Type 0} (fl : Doubles R F) where
  -- While at most 21,474,836 point boxes have been spawned in a game that started empty, whatever its
  -- history, the status says the true points of both teams and of every player.
  pub game_table_exact :
      (points : ℤ) (center : Coordinates R) (radius : R) (draw : ℕ → Draw R)
      → (cs : List (GameCall R F)) (sequence : ℕ) → spawned cs ≤ 21_474_836
      → let g = run fl cs (new_game fl points center radius draw) in
        let table = game_table sequence g in
        (table.red.points ≡ score g.red_team)
        × (table.blue.points ≡ score g.blue_team)
        × (map (λ p. p.points) table.red.players ≡ map (λ p. p.points) g.red_team.players)
        × (map (λ p. p.points) table.blue.players ≡ map (λ p. p.points) g.blue_team.players)
  unfolding game_table
  game_table_exact points center radius draw cs sequence few =
      let start = new_game fl points center radius draw in
      let g = run fl cs start in
      let fair = run-IsFair fl cs start (record { red = tt; blue = tt; boxes = tt }) in
      let (red, blue, both) = scores_bounded fl points center radius draw cs in
      let red_small : score g.red_team ≤ℤ pos (2 ^ 31 - 1) = omega int_laws in
      let blue_small : score g.blue_team ≤ℤ pos (2 ^ 31 - 1) = omega int_laws in
      let (reds, red_players) =
        team_table_lem g.red_team fair.red (rw (score_lem g.red_team) at red_small) in
      let (blues, blue_players) =
        team_table_lem g.blue_team fair.blue (rw (score_lem g.blue_team) at blue_small) in
      (reds, blues, red_players, blue_players)
