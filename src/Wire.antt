-- ===== src/Wire.antt =====
-- The messages inside the datagrams: flatbuffers/*.fbs with the headers that are generated from
-- them. The FlatBuffers library, which reads and writes their bytes, is the parameter `Wire`.
use Prim.Native.String.{String}
use upzp_game_process.Prelude.{ℕ, Bool, Option, List}
use upzp_game_process.Prelude.Int.{ℤ}
use upzp_game_process.Game.{GameTable}

-- The table `Input` of player_input.fbs.
pub record InputTable (F : Type 0) : Type 0 where
  pub sequence : ℕ
  pub id : ℕ
  pub disconnect : Bool
  pub direction : F
  pub move : Bool

-- The tables of game.fbs. A field that is no number may be missing, and its accessor then returns a
-- null pointer.
pub data FVehicleType : Type 0 where
  f_pedestrian f_cyclist f_car f_unknown : FVehicleType

pub record FClient : Type 0 where
  pub name : Option String
  pub id : ℕ
  pub ip_address : Option String
  pub port : ℤ
  pub vehicle : Option FVehicleType

pub record FTeam : Type 0 where
  pub clients : Option (List FClient)

pub record FGame : Type 0 where
  pub id : ℤ
  pub teams : Option (List FTeam)

-- The tables of game_id.fbs and game_ended.fbs.
pub record FGameId : Type 0 where
  pub id : ℤ

pub record FGameEnded : Type 0 where
  pub ended : Bool

-- `none` is a read outside the bytes: the accessors do not verify them.
pub record Wire (R F : Type 0) : Type 0 where
  pub get_input : List ℕ → Option (InputTable F)
  pub get_game : List ℕ → Option FGame
  pub finish_status : GameTable R → List ℕ
  pub finish_game_id : FGameId → List ℕ
  pub finish_game_ended : FGameEnded → List ℕ
