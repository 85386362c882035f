-- ===== src/Team.antt =====
-- game_logic/inc/Team.h and game_logic/team.cpp.
use upzp_game_process.Prelude.{List, [], ◌∷◌, ◌++◌, map, ◌==◌, if◌then◌else◌}
use upzp_game_process.Prelude.Int.{ℤ, pos, ◌+ℤ◌}
use upzp_game_process.Client.{PlayerInput}
use upzp_game_process.Player.{Player, PlayerTable, set_input, player_table, to_int32}

-- The one member `players_`.
pub record Team (R F : Type 0) : Type 0 where
  pub players : List (Player R F)

-- The table `Team` of game_status.fbs.
pub record TeamTable (R : Type 0) : Type 0 where
  pub points : ℤ
  pub players : List (PlayerTable R)

module _ {R F : Type 0} where
  unfoldable pub add_player : Player R F → Team R F → Team R F
  add_player player t = record t { players = t.players ++ (player ∷ []) }

  -- The loop of `Score` from an intermediate sum on.
  unfoldable pub score_from : ℤ → List (Player R F) → ℤ
  score_from score [] = score
  score_from score (p ∷ ps) = score_from (score +ℤ p.points) ps

  unfoldable pub score : Team R F → ℤ
  score t = score_from (pos 0) t.players

  -- The first player with the input's ID gets it.
  unfoldable pub set_first_input : PlayerInput F → List (Player R F) → List (Player R F)
  set_first_input input [] = []
  set_first_input input (p ∷ ps) =
      if p.id == input.id then set_input input p ∷ ps else p ∷ set_first_input input ps

  unfoldable pub set_player_input : PlayerInput F → Team R F → Team R F
  set_player_input input t = record t { players = set_first_input input t.players }

  unfoldable pub team_table : Team R F → TeamTable R
  team_table t = record { points = to_int32 (score t); players = map player_table t.players }
