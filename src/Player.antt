-- ===== src/Player.antt =====
-- game_logic/inc/coordinates.h, game_logic/inc/player.h and game_logic/player.cpp.
-- An `int64_t` is an integer here; Game/History bounds the points that a game can give.
use Prim.Native.String.{String}
use upzp_game_process.Prelude.{ℕ, ◌-◌, ◌%◌, ◌^◌, if◌then◌else◌, ltb}
use upzp_game_process.Prelude.Int.{ℤ, pos, negsuc, ◌+ℤ◌}
use upzp_game_process.Doubles.{Doubles}
use upzp_game_process.Client.{VehicleType, pedestrian, cyclist, car, PlayerInput, no_input}

pub record Coordinates (R : Type 0) : Type 0 where
  pub longitude : R
  pub latitude : R

pub record Player (R F : Type 0) : Type 0 where
  pub name : String
  pub id : ℕ
  pub vehicle : VehicleType
  pub points : ℤ
  pub distance_traveled : R
  pub position : Coordinates R
  pub input : PlayerInput F

-- The low 32 bits as an `int32_t`, which an `int64_t` becomes where an `int` is wanted.
abbrev pub signed32 : ℕ → ℤ
signed32 w = if ltb w (2 ^ 31) then pos w else negsuc (2 ^ 32 - w - 1)

abbrev pub to_int32 : ℤ → ℤ
to_int32 (pos n) = signed32 (n % 2 ^ 32)
to_int32 (negsuc n) = signed32 (2 ^ 32 - 1 - n % 2 ^ 32)

-- The enumeration of the schema.
pub data StatusVehicle : Type 0 where
  vehicle_pedestrian vehicle_cyclist vehicle_car : StatusVehicle

-- The table `Player` of game_status.fbs.
pub record PlayerTable (R : Type 0) : Type 0 where
  pub name : String
  pub id : ℕ
  pub points : ℤ
  pub position : Coordinates R
  pub vehicle : StatusVehicle

unfoldable pub status_vehicle : VehicleType → StatusVehicle
status_vehicle cyclist = vehicle_cyclist
status_vehicle pedestrian = vehicle_pedestrian
status_vehicle car = vehicle_car

module _ {R F : Type 0} (fl : Doubles R F) where
  -- The constructor.
  unfoldable pub new_player : String → ℕ → VehicleType → Player R F
  new_player name id vehicle = record {
    name = name;
    id = id;
    vehicle = vehicle;
    points = pos 0;
    distance_traveled = fl.literal 0 0;
    position = record { longitude = fl.literal 0 0; latitude = fl.literal 0 0 };
    input = no_input fl;
  }

  unfoldable pub add_distance_traveled : R → Player R F → Player R F
  add_distance_traveled distance p =
      if fl.lt (fl.literal 0 0) distance
      then record p { distance_traveled = fl.add p.distance_traveled distance }
      else p

module _ {R F : Type 0} where
  unfoldable pub set_position : Coordinates R → Player R F → Player R F
  set_position coords p = record p { position = coords }

  unfoldable pub set_input : PlayerInput F → Player R F → Player R F
  set_input input p = record p { input = input }

  unfoldable pub add_points : ℤ → Player R F → Player R F
  add_points points p = record p { points = p.points +ℤ points }

  unfoldable pub reset_score : Player R F → Player R F
  reset_score p = record p { points = pos 0 }

  -- The table that `GenerateFlatbuffers` has the builder write.
  unfoldable pub player_table : Player R F → PlayerTable R
  player_table p = record {
    name = p.name;
    id = p.id;
    points = to_int32 p.points;
    position = p.position;
    vehicle = status_vehicle p.vehicle;
  }
