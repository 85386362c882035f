-- ===== src/Game.antt =====
-- game_logic/inc/point_box.h, game_logic/inc/game.h and game_logic/game.cpp.
-- The random generator and its two distributions are the sequence of their results, `draw`.
pub mod PointBoxes
pub mod Points
pub mod History
pub mod Statistics
pub mod Status
use Prim.Native.String.{String}
use upzp_game_process.Prelude.{
  ℕ, zero, suc, ◌+◌, Bool, true, false, ◌||◌, List, [], ◌∷◌, ◌++◌, map, length, get_elem?, take,
  drop, none, some, if◌then◌else◌,
}
use upzp_game_process.Prelude.Int.{ℤ, pos, ◌+ℤ◌, leb_ℤ}
use upzp_game_process.Doubles.{Doubles}
use upzp_game_process.Client.{VehicleType, pedestrian, cyclist, car, vehicle_speed, PlayerInput}
use upzp_game_process.Player.{
  Coordinates, Player, new_player, set_position, add_points, add_distance_traveled, signed32,
  to_int32,
}
use upzp_game_process.Geometry.{displaced, point_box_distance}
use upzp_game_process.Team.{Team, TeamTable, add_player, set_player_input, score, team_table}

pub record PointBox (R : Type 0) : Type 0 where
  pub position : Coordinates R
  pub value : ℤ

-- The results of the two distributions for one placement on the map.
pub record Draw (R : Type 0) : Type 0 where
  pub distance : R
  pub angle : R

pub record Game (R F : Type 0) : Type 0 where
  pub red_team : Team R F
  pub blue_team : Team R F
  pub points_to_win : ℤ
  pub map_placement : Coordinates R
  pub map_radius : R
  pub point_boxes : List (PointBox R)
  pub draw : ℕ → Draw R
  pub drawn : ℕ

abbrev pub point_box_value : ℤ
point_box_value = pos 100

-- The tables `PointBox` and `Game` of game_status.fbs.
pub record GameTable (R : Type 0) : Type 0 where
  pub sequence : ℕ
  pub red : TeamTable R
  pub blue : TeamTable R
  pub boxes : List (PointBox R)
  pub finished : Bool

-- The parameters of a statement `CALL Add_stat_player_game`.
pub record PlayerRow : Type 0 where
  pub player : ℤ
  pub game : ℤ
  pub points : ℤ
  pub team : String
  pub vehicle : String
  pub distance : ℤ

-- What happens to a statement.
pub data PlayerStatement : Type 0 where
  executed dropped : PlayerRow → PlayerStatement

unfoldable pub vehicle_word : VehicleType → String
vehicle_word pedestrian = "walk"
vehicle_word cyclist = "bike"
vehicle_word car = "car"

module _ {A : Type 0} where
  -- `erase(begin() + i)`
  abbrev pub erase_at : ℕ → List A → List A
  erase_at i xs = take i xs ++ drop (suc i) xs

module _ {R F : Type 0} (fl : Doubles R F) where
  abbrev pub new_game : ℤ → Coordinates R → R → (ℕ → Draw R) → Game R F
  new_game points_to_win map_placement map_radius draw = record {
    red_team = record { players = [] };
    blue_team = record { players = [] };
    points_to_win = points_to_win;
    map_placement = map_placement;
    map_radius = map_radius;
    point_boxes = [];
    draw = draw;
    drawn = 0;
  }

  -- A random place on the map.
  unfoldable pub place : Game R F → Coordinates R
  place g =
      let r = g.draw g.drawn in
      displaced fl g.map_placement (fl.mul r.distance (fl.cos r.angle))
        (fl.mul r.distance (fl.sin r.angle))

  unfoldable pub add_player_to_game : String → ℕ → VehicleType → Bool → Game R F → Game R F
  add_player_to_game name id vehicle to_red_team g =
      let p = set_position (place g) (new_player fl name id vehicle) in
      if to_red_team
      then record g { red_team = add_player p g.red_team; drawn = g.drawn + 1 }
      else record g { blue_team = add_player p g.blue_team; drawn = g.drawn + 1 }

  unfoldable pub generate_point_box : Game R F → Game R F
  generate_point_box g = record g {
    point_boxes = g.point_boxes ++ (record { position = place g; value = point_box_value } ∷ []);
    drawn = g.drawn + 1;
  }

  -- The test of the loop of `CheckForPointBox`, with POINT_BOX_COLLECT_DISTANCE.
  unfoldable pub collects : Coordinates R → Coordinates R → PointBox R → Bool
  collects old new box = fl.lt (point_box_distance fl box.position old new) (fl.literal 50 1)

  -- The loop from index `i` on. A round takes one box out or moves on by one, so the rounds are as
  -- many as the boxes.
  unfoldable pub check_loop :
      ℕ → ℕ → Coordinates R → Coordinates R → List (PointBox R) → ℤ → List (PointBox R) × ℤ
  check_loop zero i old new boxes score = (boxes, score)
  check_loop (suc rounds) i old new boxes score = elim (get_elem? boxes i) [
    | none ↦ (boxes, score)
    | some box ↦ elim (collects old new box) [
      | true ↦ check_loop rounds i old new (erase_at i boxes) (score +ℤ box.value)
      | false ↦ check_loop rounds (i + 1) old new boxes score
    ]
  ]

  unfoldable pub check_for_point_box :
      Coordinates R → Coordinates R → List (PointBox R) → List (PointBox R) × ℤ
  check_for_point_box old new boxes = check_loop (length boxes) 0 old new boxes (pos 0)

  -- Where the input takes the player in the time, and the player with the distance added.
  unfoldable pub moved : R → Player R F → Coordinates R × Player R F
  moved time p =
      if p.input.move
      then (let distance = fl.mul (vehicle_speed fl p.vehicle) time in
          (
            displaced fl p.position (fl.mul distance (fl.cos_float p.input.direction))
                (fl.mul distance (fl.sin_float p.input.direction)),
            add_distance_traveled fl distance p,
          ))
      else (p.position, p)

  unfoldable pub calculate_player_movement :
      R → List (PointBox R) → Player R F → List (PointBox R) × Player R F
  calculate_player_movement time boxes p =
      let (new, q) = moved time p in
      let (left, points) = check_for_point_box p.position new boxes in
      (left, set_position new (add_points points q))

  -- The loop over the players of a team.
  unfoldable pub move_all :
      R → List (PointBox R) → List (Player R F) → List (PointBox R) × List (Player R F)
  move_all time boxes [] = (boxes, [])
  move_all time boxes (p ∷ ps) =
      let (left, q) = calculate_player_movement time boxes p in
      let (rest, qs) = move_all time left ps in (rest, q ∷ qs)

  unfoldable pub calculate_movement : R → Game R F → Game R F
  calculate_movement time g =
      let (left, red) = move_all time g.point_boxes g.red_team.players in
      let (rest, blue) = move_all time left g.blue_team.players in
      record g {
        red_team = record { players = red };
        blue_team = record { players = blue };
        point_boxes = rest;
      }

  unfoldable pub player_row : ℕ → Player R F → PlayerRow
  player_row game_id p = record {
    player = signed32 p.id;
    game = signed32 game_id;
    points = to_int32 p.points;
    team = "red";
    vehicle = vehicle_word p.vehicle;
    distance = fl.to_int p.distance_traveled;
  }

  -- The second loop prepares its statements, and deletes them with no `execute`.
  unfoldable pub send_players_statistics : ℕ → Game R F → List PlayerStatement
  send_players_statistics game_id g =
      map (λ p. executed (player_row game_id p)) g.red_team.players
      ++ map (λ p. dropped (player_row game_id p)) g.blue_team.players

module _ {R F : Type 0} where
  unfoldable pub set_input_in_game : PlayerInput F → Game R F → Game R F
  set_input_in_game input g = record g {
    red_team = set_player_input input g.red_team;
    blue_team = set_player_input input g.blue_team;
  }

  unfoldable pub red_team_won : Game R F → Bool
  red_team_won g = leb_ℤ g.points_to_win (score g.red_team)

  unfoldable pub blue_team_won : Game R F → Bool
  blue_team_won g = leb_ℤ g.points_to_win (score g.blue_team)

  -- The tables that `GenerateFlatbuffers` has the builder write.
  unfoldable pub game_table : ℕ → Game R F → GameTable R
  game_table sequence_number g = record {
    sequence = sequence_number;
    red = team_table g.red_team;
    blue = team_table g.blue_team;
    boxes = map (λ (box : PointBox R). record box { value = to_int32 box.value }) g.point_boxes;
    finished = red_team_won g || blue_team_won g;
  }
