-- ===== src/GameLogic.antt =====
-- game_logic/inc/game_logic.h and game_logic/game_logic.cpp: the object that the game thread and the
-- two communication threads share. Each operation that the mutex guards is one step. Clock values
-- are nanoseconds.
pub mod Winner
pub mod Threads
pub mod Steps
pub mod Running
pub mod Stopping
pub mod Victory
pub mod Ending
pub mod Turns
pub mod Spawning
use Prim.Native.String.{String}
use mathlib.Core.Option
use upzp_game_process.Prelude.{
  ℕ, ◌+◌, ◌-◌, ◌*◌, ◌%◌, ◌^◌, Bool, true, false, ◌||◌, Option, none, some, List, [], ◌∷◌, map, take,
  ltb, if◌then◌else◌,
}
use upzp_game_process.Prelude.Int.{ℤ, pos, negsuc}
use upzp_game_process.Doubles.{Doubles}
use upzp_game_process.Client.{Client, PlayerInput}
use upzp_game_process.Player.{Coordinates, signed32, to_int32}
use upzp_game_process.Team.{score}
use upzp_game_process.Game.{
  Game, Draw, GameTable, PlayerStatement, new_game as construct, add_player_to_game,
  set_input_in_game, generate_point_box, calculate_movement, red_team_won, blue_team_won,
  game_table, send_players_statistics,
}

-- Where the game thread stands: before `Tick`, before each half of the loop's test, before the `if`
-- behind the loop, and before each of the two last statements. `returned` is a thread that has
-- ended and was not joined.
pub data Thread : Type 0 where
  no_thread ticking checking_finish checking_terminate ending sending closing returned : Thread

pub record GameLogic (R F : Type 0) : Type 0 where
  pub game : Option (Game R F)
  pub game_id : ℕ
  pub map_name : String
  pub point_box_spawn_period : ℕ
  pub start_point : ℕ
  pub finish_point : ℕ
  pub game_started : Bool
  pub terminate : Bool
  pub thread : Thread
  pub serialization_seq_num : ℕ
  pub last_point_box_spawn : ℕ

-- The parameters of the statement `CALL Add_stat_map_game`.
pub record MapRow : Type 0 where
  pub game : ℤ
  pub map_name : String
  pub start : ℕ
  pub finish : ℕ
  pub red_points : ℤ
  pub blue_points : ℤ

pub data Statement : Type 0 where
  of_map : MapRow → Statement
  of_player : PlayerStatement → Statement

-- An `int64_t` from a `uint64_t`.
abbrev pub signed64 : ℕ → ℤ
signed64 w = if ltb w (2 ^ 63) then pos w else negsuc (2 ^ 64 - w - 1)

abbrev pub nanoseconds : ℕ → ℕ
nanoseconds seconds = seconds * 1_000_000_000

module _ {R F : Type 0} where
  -- The constructor.
  unfoldable pub new_game_logic : ℕ → GameLogic R F
  new_game_logic now = record {
    game = none;
    game_id = 0;
    map_name = "";
    point_box_spawn_period = 10;
    start_point = 0;
    finish_point = 0;
    game_started = false;
    terminate = false;
    thread = no_thread;
    serialization_seq_num = 0;
    last_point_box_spawn = now;
  }

  unfoldable pub new_game :
      Doubles R F
      → Coordinates R
      → R
      → String
      → ℕ
      → ℕ
      → ℕ
      → (ℕ → Draw R)
      → GameLogic R F
      → GameLogic R F
  new_game fl start_point radius map_name game_id point_to_win period draw l = record l {
    point_box_spawn_period = period;
    game = some (construct fl (signed64 point_to_win) start_point radius draw);
    game_id = game_id;
    map_name = map_name;
  }

  unfoldable pub add_player : Doubles R F → Client → Bool → GameLogic R F → GameLogic R F
  add_player fl client to_red_team l = record l {
    game =
        Option.map (λ g. add_player_to_game fl client.name client.id client.vehicle to_red_team g)
          l.game;
  }

  unfoldable pub set_player_movement : PlayerInput F → GameLogic R F → GameLogic R F
  set_player_movement input l = record l { game = Option.map (set_input_in_game input) l.game }

  -- `none`: the thread object still holds a thread, and its assignment calls `std::terminate`.
  unfoldable pub start_game : ℕ → GameLogic R F → Option (GameLogic R F)
  start_game now l = elim l.game [
    | none ↦ some l
    | some g ↦ if l.game_started then some l else elim l.thread [
      | no_thread ↦
          some (record l {
            start_point = now;
            game_started = true;
            terminate = false;
            thread = ticking;
          })
      | _ ↦ none
    ]
  ]

  unfoldable pub game_finished : Game R F → Bool
  game_finished g = blue_team_won g || red_team_won g

  -- What is written into the builder, if there is a game.
  unfoldable pub get_game_status : GameLogic R F → Option (GameTable R)
  get_game_status l = Option.map (game_table l.serialization_seq_num) l.game

  unfoldable pub running : GameLogic R F → Bool
  running l = l.game_started

  -- The two halves of `StopGame`; the second waits for the thread's end, which `none` says.
  unfoldable pub request_stop : GameLogic R F → GameLogic R F
  request_stop l = record l { terminate = true }

  unfoldable pub join : GameLogic R F → Option (GameLogic R F)
  join l = elim l.thread [
    | no_thread ↦ some l
    | returned ↦ some (record l { thread = no_thread })
    | _ ↦ none
  ]

module _ {R F : Type 0} (fl : Doubles R F) where
  -- `duration<double>` of the 50 ms of a tick.
  abbrev pub tick_seconds : R
  tick_seconds = fl.literal 50 3

  unfoldable pub spawn_if_due : ℕ → GameLogic R F → Game R F → GameLogic R F × Game R F
  spawn_if_due now l g =
      if ltb (nanoseconds l.point_box_spawn_period) (now - l.last_point_box_spawn)
      then (record l { last_point_box_spawn = now }, generate_point_box fl g)
      else (l, g)

  unfoldable pub tick : ℕ → Game R F → GameLogic R F → GameLogic R F
  tick now g l =
      let (m, h) = spawn_if_due now l g in
      record m {
        game = some (calculate_movement fl tick_seconds h);
        serialization_seq_num = (m.serialization_seq_num + 1) % 2 ^ 64;
      }

  -- All statements of `SendStatisticsToDatabase`, in their order.
  unfoldable pub statements : Game R F → GameLogic R F → List Statement
  statements g l =
      of_map (record {
        game = signed32 l.game_id;
        map_name = l.map_name;
        start = l.start_point;
        finish = l.finish_point;
        red_points = to_int32 (score g.red_team);
        blue_points = to_int32 (score g.blue_team);
      })
      ∷ map of_player (send_players_statistics fl l.game_id g)

  -- The database may throw at any statement; the exception is caught, and the first `done`
  -- statements have taken place.
  unfoldable pub send_statistics_to_database : ℕ → Game R F → GameLogic R F → List Statement
  send_statistics_to_database done g l = take done (statements g l)

  -- The next action of the game thread, at clock value `now`; `done` is how far the database lets
  -- the statistics come.
  unfoldable pub act : ℕ → ℕ → Thread → Game R F → GameLogic R F → GameLogic R F × List Statement
  act now done ticking g l = (record (tick now g l) { thread = checking_finish }, [])
  act now done checking_finish g l =
      (record l { thread = if game_finished g then ending else checking_terminate }, [])
  act now done checking_terminate g l =
      (record l { thread = if l.terminate then ending else ticking }, [])
  act now done ending g l = (
    (if l.terminate
        then record l { game_started = false; thread = returned }
        else record l { finish_point = now; thread = sending }),
    [],
  )
  act now done sending g l = (record l { thread = closing }, send_statistics_to_database done g l)
  act now done closing g l = (record l { game_started = false; thread = returned }, [])
  act now done no_thread g l = (l, [])
  act now done returned g l = (l, [])
