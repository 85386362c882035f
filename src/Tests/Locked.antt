-- ===== src/Tests/Locked.antt =====
-- The whole sub-process after a roster with a text that is no address.
use upzp_game_process.Prelude.{ℕ, ◌≡◌, ◌≢◌, refl, true, List, [], ◌∷◌}
use upzp_game_process.Datagram.{
  Datagram, get, set_version, set_payload, set_payload_checksum, load, load_payload,
  payload_correctness,
}
use upzp_game_process.DatagramStream.{
  begin_seq, add_data, flush_data, flush_loop, round, begin_seq_step, find_begin_sequence,
  find_from, header_1_step, header_2_step, payload_step, header_correct,
}
use upzp_game_process.DatagramStream.Invariant.{stream}
use upzp_game_process.GameLogic.{get_game_status}
use upzp_game_process.ClientUdp.{new_client_udp}
use upzp_game_process.ClientCommunication.{
  throws, add_client, add_clients, emplace_all, handle_transmit, status_bytes, status_datagram,
  get_game_status_into_transmit_buffer,
}
use upzp_game_process.MainProcessComm.{
  handle_receive, drain, use_datagram, load_clients, load_teams, load_team, load_client,
  read_client, vehicle_type,
}
use upzp_game_process.SubProcess.{
  tcp_side, stuck, exited, SubProcess, receive_tcp, transmit_udp, end_runner,
}
use upzp_game_process.SubProcess.Steps.{Step, receives, transmits, here, next}
use upzp_game_process.SubProcess.Ending.{at_work}
use upzp_game_process.SubProcess.Waiting.{main_never_exits}
use upzp_game_process.SubProcess.Silence.{Silent, Silent-after_exception}
use upzp_game_process.Tests.Toys.{sum_crc, memory, input_frame, toy_wire, whole_numbers}
use upzp_game_process.Tests.System.{
  settings, no_draws, open_ports, no_address, fresh, start, connected, StartReaches, booted,
  to_connected,
}

-- The roster arrives, and its first client has no address.
abbrev pub roster_bytes : List ℕ
roster_bytes = get sum_crc (record input_frame { version = 10 })

abbrev pub roster : Datagram
roster = record {
  version = 10;
  payload_length = 2;
  payload_checksum = 5;
  payload_checksum_included = true;
  payload = 4 ∷ 1 ∷ [];
}

abbrev locked : SubProcess ℕ ℕ
locked = record connected {
  comm = record { clients = []; locked = true; transmit_buffer = [] };
  stream = stream begin_seq [] 16 2 roster;
  tcp = end_runner at_work;
}

to_locked : StartReaches locked
unfolding receive_tcp handle_receive drain use_datagram payload_correctness load_clients load_teams
    load_team load_client read_client vehicle_type add_client add_clients emplace_all new_client_udp
    get add_data flush_data flush_loop round begin_seq_step find_begin_sequence find_from
    header_1_step header_2_step payload_step header_correct load load_payload
to_locked = next {out = []} (to_connected no_address) (receives roster_bytes refl refl)

thrown :
    handle_receive whole_numbers no_address sum_crc toy_wire roster_bytes (tcp_side connected)
    ≡ throws (tcp_side locked)
unfolding handle_receive drain use_datagram payload_correctness load_clients load_teams load_team
    load_client read_client vehicle_type add_client add_clients emplace_all new_client_udp get
    add_data flush_data flush_loop round begin_seq_step find_begin_sequence find_from header_1_step
    header_2_step payload_step header_correct load load_payload
thrown = refl

-- The UDP thread waits for the mutex at its next status.
abbrev waiting : SubProcess ℕ ℕ
waiting = record locked {
  comm = record locked.comm {
    transmit_buffer = get sum_crc (record roster {
      version = 100;
      payload_length = 3;
      payload_checksum = 6;
      payload = 1 ∷ 2 ∷ 3 ∷ [];
    });
  };
  udp = record at_work { worker = stuck };
}

to_waiting : Step whole_numbers no_address sum_crc toy_wire memory locked waiting []
unfolding transmit_udp handle_transmit get_game_status_into_transmit_buffer get status_datagram
    status_bytes get_game_status set_version set_payload set_payload_checksum
to_waiting = transmits refl refl

Silent-after_exception_example : (waiting.comm.locked ≡ true) × Silent []
Silent-after_exception_example =
    Silent-after_exception sum_crc toy_wire memory whole_numbers no_address 0 open_ports settings
      no_draws fresh 5 start locked locked waiting [] booted to_locked refl here to_waiting

main_never_exits_example : (waiting.udp.worker ≡ stuck) × (waiting.main ≢ exited)
main_never_exits_example =
    main_never_exits sum_crc toy_wire memory whole_numbers no_address open_ports settings no_draws
      fresh 0 5 start connected waiting waiting roster_bytes (tcp_side locked) booted
      (to_connected no_address) refl thrown (next {out = []} here to_waiting) refl (λ e. cc) here
