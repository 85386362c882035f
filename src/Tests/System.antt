-- ===== src/Tests/System.antt =====
-- The whole sub-process with a game that needs no points.
use Prim.Native.String.{String}
use upzp_game_process.Prelude.{ℕ, ◌≡◌, refl, Bool, true, false, Option, none, some, []}
use upzp_game_process.Prelude.Int.{pos}
use upzp_game_process.DatagramStream.{begin_seq, DatagramStream}
use upzp_game_process.DatagramStream.Invariant.{stream}
use upzp_game_process.SubProcessSettings.{SubProcessSettings}
use upzp_game_process.Team.{score, score_from}
use upzp_game_process.Game.{
  Draw, Game, new_game as construct, calculate_movement, move_all, blue_team_won,
}
use upzp_game_process.GameLogic.{
  GameLogic, new_game_logic, new_game, start_game, act, tick, spawn_if_due, game_finished, running,
  ticking, returned,
}
use upzp_game_process.GameLogic.Threads.{WonGame}
use upzp_game_process.SubProcess.{
  absent, connecting, no_runner, starting_tcp, starting_udp, keeping_alive, telling, exited,
  SubProcess, boot, main_goes, start_runner, connect,
}
use upzp_game_process.SubProcess.Steps.{goes, acts, connects, Reaches, here, next}
use upzp_game_process.SubProcess.Boot.{tells_of_victory}
use upzp_game_process.SubProcess.Ending.{at_work}
use upzp_game_process.SubProcess.Conclusion.{main_exits_won}
use upzp_game_process.Tests.Toys.{sum_crc, memory, toy_wire, whole_numbers}

abbrev pub settings : SubProcessSettings ℕ
settings = record {
  udp_port = 8850;
  tcp_port = 8860;
  start_point_latitude = 51;
  start_point_longitude = 17;
  map_radius = 50;
  map_name = "WROCLAW";
  game_id = 1;
  points_to_win = pos 0;
  point_box_spawn_period = 10;
}

abbrev pub no_draws : ℕ → Draw ℕ
no_draws n = record { distance = 0; angle = 0 }

abbrev pub open_ports : ℕ → Bool
open_ports port = true

abbrev pub no_address : String → Option String
no_address text = none

abbrev pub fresh : DatagramStream
fresh = stream begin_seq [] 12 0 memory

abbrev pub short_game : Game ℕ ℕ
short_game = construct whole_numbers (pos 0) (record { longitude = 17; latitude = 51 }) 50 no_draws

abbrev pub started : GameLogic ℕ ℕ
started = record {
  game = some short_game;
  game_id = 1;
  map_name = "WROCLAW";
  point_box_spawn_period = 10;
  start_point = 5;
  finish_point = 0;
  game_started = true;
  terminate = false;
  thread = ticking;
  serialization_seq_num = 0;
  last_point_box_spawn = 0;
}

abbrev pub start : SubProcess ℕ ℕ
start = record {
  main = starting_tcp;
  game_id = 1;
  logic = started;
  comm = record { clients = []; locked = false; transmit_buffer = [] };
  udp = no_runner;
  stream = fresh;
  tcp = no_runner;
  linked = false;
}

pub booted : boot whole_numbers open_ports settings no_draws fresh 0 5 ≡ some start
unfolding boot new_game_logic new_game start_game
booted = refl

abbrev pub ReachesBy : (String → Option String) → SubProcess ℕ ℕ → Type 0
ReachesBy make_address = Reaches whole_numbers make_address sum_crc toy_wire memory start

abbrev pub StartReaches : SubProcess ℕ ℕ → Type 0
StartReaches = ReachesBy no_address

-- `main` waits, and the TCP side connects.
abbrev pub alive : SubProcess ℕ ℕ
alive = record start {
  main = keeping_alive;
  tcp = record no_runner { is_running = true; worker = connecting };
  udp = at_work;
}

to_alive : (make_address : String → Option String) → ReachesBy make_address alive
unfolding main_goes start_runner
to_alive make_address =
    next
      {q = record start {
        main = starting_udp;
        tcp = record no_runner { is_running = true; worker = connecting };
      }}
      {out = []} (next {out = []} here (goes refl)) (goes refl)

abbrev pub connected : SubProcess ℕ ℕ
connected = record alive { tcp = at_work; linked = true }

pub to_connected : (make_address : String → Option String) → ReachesBy make_address connected
unfolding connect
to_connected make_address = next (to_alive make_address) (connects true refl)

-- The game thread at its end.
abbrev acted : GameLogic ℕ ℕ → GameLogic ℕ ℕ
acted l = (act whole_numbers 6 0 l.thread short_game l).0

abbrev pub played : SubProcess ℕ ℕ
played = record connected { logic = acted (acted (acted (acted (acted started)))) }

pub to_played : StartReaches played
unfolding act tick spawn_if_due calculate_movement move_all game_finished blue_team_won score
    score_from
to_played =
    next
      (next
        (next
          (next (next (to_connected no_address) (acts 6 0 short_game refl))
            (acts 6 0 short_game refl))
          (acts 6 0 short_game refl))
        (acts 6 0 short_game refl))
      (acts 6 0 short_game refl)

abbrev pub finished : SubProcess ℕ ℕ
finished = record played { main = telling }

to_finished : StartReaches finished
unfolding act tick spawn_if_due calculate_movement move_all game_finished blue_team_won score
    score_from main_goes running
to_finished = next {out = []} to_played (goes refl)

tells_of_victory_example : (finished.logic.thread ≡ returned) × WonGame finished.logic.game
tells_of_victory_example =
    tells_of_victory whole_numbers open_ports settings no_draws fresh 0 5 no_address sum_crc
      toy_wire memory start finished booted to_finished refl

main_exits_won_example :
    (r : SubProcess ℕ ℕ) × Reaches whole_numbers no_address sum_crc toy_wire memory connected r
    × (r.main ≡ exited)
    × (r.tcp.worker ≡ absent)
    × (r.udp.worker ≡ absent)
unfolding game_finished blue_team_won score score_from
main_exits_won_example =
    main_exits_won whole_numbers no_address sum_crc toy_wire memory open_ports settings no_draws
      fresh 0 5 start connected booted (to_connected no_address) refl refl refl refl
