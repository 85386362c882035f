-- ===== src/SubProcessSettings.antt =====
-- inc/sub_process_settings.h and sub_process_settings.cpp: the program's arguments.
-- `std::stoi` and `std::stod` are parameters, with `none` for an exception.
pub mod Arguments
use Prim.Native.String.{String}
use text.Mathlib.Text.{◌==◌}
use upzp_game_process.Prelude.{ℕ, ◌-◌, ◌%◌, ◌^◌, Option, none, some, List, [], ◌∷◌, if◌then◌else◌}
use upzp_game_process.Prelude.Int.{ℤ, pos, negsuc}
use upzp_game_process.Doubles.{Doubles}

pub record SubProcessSettings (R : Type 0) : Type 0 where
  pub udp_port : ℕ
  pub tcp_port : ℕ
  pub start_point_latitude : R
  pub start_point_longitude : R
  pub map_radius : R
  pub map_name : String
  pub game_id : ℕ
  pub points_to_win : ℤ
  pub point_box_spawn_period : ℕ

-- The conversions of the standard library.
pub record Conversions (R : Type 0) : Type 0 where
  pub stoi : String → Option ℤ
  pub stod : String → Option R

-- An `int` as an unsigned integer of so many values.
abbrev pub wrap : ℕ → ℤ → ℕ
wrap m (pos n) = n % m
wrap m (negsuc n) = m - 1 - n % m

-- What an assignment in a `try` block does.
abbrev pub try_set : {A S : Type 0} → Option A → (A → S → S) → S → S
try_set none set s = s
try_set (some a) set s = set a s

module _ {R F : Type 0} (fl : Doubles R F) where
  -- The default constructor.
  unfoldable pub default_settings : SubProcessSettings R
  default_settings = record {
    udp_port = 8850;
    tcp_port = 8860;
    start_point_latitude = fl.literal 17034299 6;
    start_point_longitude = fl.literal 51109385 6;
    map_radius = fl.literal 10000 1;
    map_name = "WROCLAW";
    game_id = 0;
    points_to_win = pos 1000;
    point_box_spawn_period = 10;
  }

module _ {R : Type 0} (conv : Conversions R) where
  open conv use {stoi, stod}

  -- One round of the loop of `Load`, on an argument and the one behind it.
  unfoldable pub load_argument : String → String → SubProcessSettings R → SubProcessSettings R
  load_argument name value s =
      if name == "--udp"
      then try_set (stoi value) (λ n t. record t { udp_port = wrap (2 ^ 16) n }) s
      else if name == "--tcp"
      then try_set (stoi value) (λ n t. record t { tcp_port = wrap (2 ^ 16) n }) s
      else if name == "--lat_start"
      then try_set (stod value) (λ x t. record t { start_point_latitude = x }) s
      else if name == "--long_start"
      then try_set (stod value) (λ x t. record t { start_point_longitude = x }) s
      else if name == "--radius"
      then try_set (stod value) (λ x t. record t { map_radius = x }) s
      else if name == "--map"
      then record s { map_name = value }
      else if name == "--id"
      then try_set (stoi value) (λ n t. record t { game_id = wrap (2 ^ 32) n }) s
      else if name == "--win_points"
      then try_set (stoi value) (λ n t. record t { points_to_win = n }) s
      else if name == "--spawn_period"
      then try_set (stoi value) (λ n t. record t { point_box_spawn_period = wrap (2 ^ 16) n }) s
      else s

  -- The loop from one argument on; the last argument is not taken as a name.
  unfoldable pub load_from : String → List String → SubProcessSettings R → SubProcessSettings R
  load_from name [] s = s
  load_from name (value ∷ rest) s = load_from value rest (load_argument name value s)

  unfoldable pub load : List String → SubProcessSettings R → SubProcessSettings R
  load [] s = s
  load (program ∷ arguments) s = load_from program arguments s
