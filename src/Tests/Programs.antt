-- ===== src/Tests/Programs.antt =====
-- The programs around the mocked messages, with a library that reads back what it was given.
use upzp_game_process.Prelude.{
  ℕ, ◌≡◌, refl, some, List, [], ◌∷◌, length, take, drop, take-append-drop, arith,
}
use upzp_game_process.Datagram.{get, set_payload, set_payload_checksum}
use upzp_game_process.Wire.{Wire}
use upzp_game_process.ClientUdp.{ClientUdp}
use upzp_game_process.ClientCommunication.{ClientCommunication, done, handle_receive}
use upzp_game_process.Mockers.{initial_statics, mock_game, mock_player_list_datagram}
use upzp_game_process.Mockers.Programs.{serve_sub_process, server, transmit}
use upzp_game_process.Mockers.Arrival.{BringsTen, handle_receive-serve_sub_process}
use upzp_game_process.Mockers.Strangers.{handle_receive-transmit}
use upzp_game_process.Tests.Toys.{sum_crc, memory, whole_numbers, any_address}
use upzp_game_process.Tests.Mocks.{
  any_digits, mock_wire, real_wire, empty_game, nobody, logic, anna_udp,
}

abbrev five_wire : Wire ℕ ℕ
five_wire = record real_wire {
  get_game = λ bytes. some (mock_game any_digits 5 5 initial_statics).0;
}

abbrev served : List ℕ
served = (serve_sub_process sum_crc mock_wire memory any_digits initial_statics).0

handle_receive-serve_sub_process_example :
    BringsTen whole_numbers any_address sum_crc five_wire 0 0 memory
      (take 9 served)
      (drop 9 served)
      nobody
      logic
      empty_game
unfolding serve_sub_process get mock_player_list_datagram set_payload set_payload_checksum
handle_receive-serve_sub_process_example =
    handle_receive-serve_sub_process whole_numbers any_address sum_crc five_wire any_digits
      mock_wire memory initial_statics "127.0.0.1" 0 0 memory (take 9 served) (drop 9 served) nobody
      logic empty_game refl (omega arith) refl refl (take-append-drop 9 served) (omega arith)
      (omega arith)

abbrev with_id : ℕ → ClientUdp ℕ
with_id id = record anna_udp { client = record anna_udp.client { id = id } }

abbrev three_clients : ClientCommunication ℕ
three_clients = record nobody { clients = with_id 1000 ∷ with_id 1001 ∷ with_id 2000 ∷ [] }

abbrev from_stranger : List ℕ
from_stranger = (transmit sum_crc mock_wire memory 3 0).2

handle_receive-transmit_example :
    handle_receive sum_crc real_wire memory from_stranger
      (length from_stranger)
      server
      three_clients
      (some logic)
    ≡ done (three_clients, some logic)
handle_receive-transmit_example =
    handle_receive-transmit sum_crc real_wire mock_wire memory 3 0 (length from_stranger) 2 1 server
      three_clients (some logic) (omega arith, refl) (omega arith) (omega arith) refl refl refl
