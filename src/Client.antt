-- ===== src/Client.antt =====
-- inc/vehicle_types.h, inc/player_input.h, inc/client.h and client.cpp, inc/maps.h.
use Prim.Native.String.{String}
use upzp_game_process.Prelude.{ℕ, Bool, false}
use upzp_game_process.Doubles.{Doubles}

pub data VehicleType : Type 0 where
  pedestrian cyclist car : VehicleType

module _ {R F : Type 0} (fl : Doubles R F) where
  -- Speed in m/s.
  unfoldable pub vehicle_speed : VehicleType → R
  vehicle_speed pedestrian = fl.literal 50 1
  vehicle_speed cyclist = fl.literal 90 1
  vehicle_speed car = fl.literal 1388 2

pub record PlayerInput (F : Type 0) : Type 0 where
  pub id : ℕ
  pub move : Bool
  pub direction : F

-- The initial values of the members.
abbrev pub no_input : {R F : Type 0} → Doubles R F → PlayerInput F
no_input fl = record { id = 0; move = false; direction = fl.float_zero }

pub record Client : Type 0 where
  pub name : String
  pub id : ℕ
  pub vehicle : VehicleType
  pub ip_v4 : String
  pub port : ℕ

-- The constructor.
abbrev pub new_client : String → ℕ → VehicleType → String → ℕ → Client
new_client name id vehicle ip port = record {
  name = name;
  id = id;
  vehicle = vehicle;
  ip_v4 = ip;
  port = port;
}

pub data Maps : Type 0 where
  warszawa wroclaw krakow : Maps

module _ {R F : Type 0} (fl : Doubles R F) where
  unfoldable pub maps_latitude : Maps → R
  maps_latitude warszawa = fl.literal 21025745 6
  maps_latitude wroclaw = fl.literal 17034299 6
  maps_latitude krakow = fl.literal 19938898 6

  unfoldable pub maps_longitude : Maps → R
  maps_longitude warszawa = fl.literal 52240679 6
  maps_longitude wroclaw = fl.literal 51109385 6
  maps_longitude krakow = fl.literal 50061974 6
