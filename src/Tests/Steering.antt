-- ===== src/Tests/Steering.antt =====
-- An input on its way through the sub-process.
use upzp_game_process.Prelude.{ℕ, ◌≡◌, refl, true, false, some, [], ◌∷◌, ◌++◌, length, map, arith}
use upzp_game_process.Datagram.{Datagram, get, load, load_payload, payload_correctness}
use upzp_game_process.DatagramStream.{
  begin_seq, add_data, flush_data, flush_loop, round, begin_seq_step, find_begin_sequence,
  find_from, header_1_step, header_2_step, payload_step, header_correct,
}
use upzp_game_process.DatagramStream.Invariant.{stream}
use upzp_game_process.ClientUdp.{new_client_udp}
use upzp_game_process.ClientCommunication.{add_client, add_clients, emplace_all}
use upzp_game_process.MainProcessComm.{
  handle_receive, drain, use_datagram, load_clients, load_teams, load_team, load_client,
  read_client, vehicle_type,
}
use upzp_game_process.SubProcess.{SubProcess, receive_tcp}
use upzp_game_process.SubProcess.Steps.{receives, next}
use upzp_game_process.Tests.Toys.{sum_crc, memory, input_frame, toy_wire, whole_numbers}
use upzp_game_process.Tests.System.{
  settings, no_draws, open_ports, fresh, short_game, start, connected, booted, to_connected,
}
use upzp_game_process.Wire.{InputTable}
use upzp_game_process.Client.{Client, car}
use upzp_game_process.Game.{add_player_to_game, Game}
use upzp_game_process.GameLogic.{add_player, set_player_movement}
use upzp_game_process.ClientUdp.{ClientUdp, Endpoint}
use upzp_game_process.ClientCommunication.{
  ClientCommunication, done, handle_receive as handle_receive_udp,
}
use upzp_game_process.SubProcess.Losing.{handle_receive-add_client}
use upzp_game_process.ClientCommunication.Hearing.{hearing, input_of}
use upzp_game_process.SubProcess.{receive_udp}
use upzp_game_process.SubProcess.Steering.{Steers, receive_udp-Steers}
use upzp_game_process.Tests.Toys.{any_address, input_frame, sum_crc, toy_wire, whole_numbers}
use upzp_game_process.Tests.Locked.{roster, roster_bytes}
use upzp_game_process.Tests.System.{ReachesBy, started}

abbrev anna : Client
anna = record { name = "Anna"; id = 1; vehicle = car; ip_v4 = "10.0.0.1"; port = 8850 }

abbrev home : Endpoint
home = record { address = "10.0.0.1"; port = 8850 }

-- One byte behind the roster stays in the buffer.
abbrev joined : SubProcess ℕ ℕ
joined = record connected {
  logic = add_player whole_numbers anna true started;
  comm = record {
    clients =
        record {
          client = anna;
          input = record { id = 1; move = false; direction = 0 };
          last_sequence = 0;
          remote_endpoint = home;
          first_connection = true;
        }
        ∷ [];
    locked = false;
    transmit_buffer = [];
  };
  stream = stream begin_seq (0xAB ∷ []) 16 2 roster;
}

to_joined : ReachesBy any_address joined
unfolding receive_tcp handle_receive drain use_datagram payload_correctness load_clients load_teams
    load_team load_client read_client vehicle_type add_client add_clients emplace_all new_client_udp
    get add_data flush_data flush_loop round begin_seq_step find_begin_sequence find_from
    header_1_step header_2_step payload_step header_correct load load_payload add_player
    add_player_to_game
to_joined =
    next {out = []} (to_connected any_address) (receives (roster_bytes ++ (0xAB ∷ [])) refl refl)

abbrev fifth_input : InputTable ℕ
fifth_input = record { sequence = 5; id = 1; disconnect = false; direction = 0; move = true }

abbrev input_bytes : Datagram
input_bytes = record input_frame { payload = 5 ∷ 1 ∷ [] }

-- The input comes from another port.
abbrev elsewhere : Endpoint
elsewhere = record { address = "10.0.0.1"; port = 9000 }

abbrev with_anna : Game ℕ ℕ
with_anna = add_player_to_game whole_numbers "Anna" 1 car true short_game

receive_udp-Steers_example :
    (h : Game ℕ ℕ) × (receive_udp sum_crc toy_wire memory
        (get sum_crc input_bytes)
        (length (get sum_crc input_bytes))
        elsewhere
        joined
      ≡ some (record joined {
        comm = record joined.comm {
          clients = map (hearing elsewhere fifth_input) joined.comm.clients;
        };
        logic = set_player_movement (input_of fifth_input) joined.logic;
      }))
    × (set_player_movement (input_of fifth_input) joined.logic
        ≡ record joined.logic { game = some h })
    × Steers (input_of fifth_input) h
unfolding add_player add_player_to_game upzp_game_process.Team.add_player
    upzp_game_process.Player.set_position upzp_game_process.Player.new_player
receive_udp-Steers_example =
    receive_udp-Steers whole_numbers open_ports settings no_draws fresh 0 5 any_address sum_crc
      toy_wire memory start joined input_bytes fifth_input elsewhere with_anna booted to_joined refl
      refl (omega arith) refl refl refl (omega arith)

-- Anna as a new client of the UDP side, and one who has been heard.
abbrev anna_new : ClientUdp ℕ
anna_new = record {
  client = anna;
  input = record { id = 1; move = false; direction = 0 };
  last_sequence = 0;
  remote_endpoint = home;
  first_connection = true;
}

abbrev anna_there : ClientCommunication ℕ
anna_there = record { clients = anna_new ∷ []; locked = false; transmit_buffer = [] }

abbrev anna_heard : ClientCommunication ℕ
anna_heard = record anna_there { clients = map (hearing elsewhere fifth_input) (anna_new ∷ []) }

abbrev nobody_there : ClientCommunication ℕ
nobody_there = record { clients = []; locked = false; transmit_buffer = [] }

handle_receive-add_client_example :
    (add_client whole_numbers any_address anna nobody_there ≡ done anna_there)
    × (handle_receive_udp sum_crc toy_wire memory
          (get sum_crc input_bytes)
          (length (get sum_crc input_bytes))
          elsewhere
          anna_there
          (some started)
        ≡ done (anna_heard, some started))
    × ((hearing elsewhere fifth_input anna_new).last_sequence ≡ 5)
    × (handle_receive_udp sum_crc toy_wire memory
          (get sum_crc input_bytes)
          (length (get sum_crc input_bytes))
          elsewhere
          anna_heard
          (some (add_player whole_numbers anna true started))
        ≡ done (anna_heard, some (add_player whole_numbers anna true started)))
unfolding new_client_udp
handle_receive-add_client_example =
    handle_receive-add_client whole_numbers any_address sum_crc toy_wire memory input_bytes
      fifth_input anna true anna_new nobody_there started short_game elsewhere refl (omega arith)
      refl refl tt refl refl refl (omega arith)
