-- ===== src/Tests/Messages.antt =====
-- The two sides that receive and send.
use Prim.Native.String.{String}
use upzp_game_process.Prelude.{
  ℕ, ◌≡◌, refl, inr, true, false, Option, none, some, List, [], ◌∷◌, ◌++◌, length, arith,
}
use upzp_game_process.Datagram.{loaded, load, load_payload, get, payload_correctness}
use upzp_game_process.DatagramStream.{begin_seq}
use upzp_game_process.DatagramStream.Invariant.{stream}
use upzp_game_process.Client.{Client, car}
use upzp_game_process.GameLogic.{GameLogic, new_game_logic, get_game_status}
use upzp_game_process.ClientUdp.{
  ClientUdp, Endpoint, decoded, decode_datagram, take_input, new_client_udp,
}
use upzp_game_process.ClientUdp.Sequence.{hear_each, decode_datagram_twice}
use upzp_game_process.ClientCommunication.{
  ClientCommunication, done, throws, blocked, fault, receive_loop, connected, add_clients,
  status_bytes, status_datagram, handle_transmit, game_status_ver,
}
use upzp_game_process.ClientCommunication as Udp
use upzp_game_process.ClientCommunication.Delivery.{handle_transmit_delivers}
use upzp_game_process.ClientCommunication.Receiving.{ChangesAll, handle_receive-ChangesAll}
use upzp_game_process.ClientCommunication.Locking.{add_clients_deadlock}
use upzp_game_process.MainProcessComm.{Peers, MainProcessComm, use_datagram, load_clients}
use upzp_game_process.MainProcessComm as Tcp
use upzp_game_process.MainProcessComm.Receive.{handle_receive-get}
use upzp_game_process.MainProcessComm.Finishing.{Finishes, handle_receive-Finishes}
use upzp_game_process.Tests.Toys.{
  sum_crc, memory, input_frame, toy_wire, whole_numbers, any_address,
}

abbrev anna : Client
anna = record { name = "Anna"; id = 1; vehicle = car; ip_v4 = "10.0.0.1"; port = 8850 }

abbrev anna_udp : ClientUdp ℕ
anna_udp = record {
  client = anna;
  input = record { id = 1; move = false; direction = 0 };
  last_sequence = 0;
  remote_endpoint = record { address = "10.0.0.1"; port = 8850 };
  first_connection = true;
}

-- The same client after the input of `input_frame`.
abbrev anna_moving : ClientUdp ℕ
anna_moving = record anna_udp {
  input = record { id = 1; move = true; direction = 0 };
  last_sequence = 4;
}

-- The bytes of `input_frame`.
abbrev input_bytes : List ℕ
input_bytes =
    0xDA ∷ 0xAB ∷ 101 ∷ 0x80 ∷ 2 ∷ 0 ∷ 0 ∷ 0 ∷ 5 ∷ 0 ∷ 0 ∷ 0 ∷ 0 ∷ 0 ∷ 0x71 ∷ 2 ∷ 4 ∷ 1 ∷ []

-- The address that she sends from, with another port, and the client who has been heard.
abbrev other_port : Endpoint
other_port = record { address = "10.0.0.1"; port = 9000 }

abbrev anna_heard : ClientUdp ℕ
anna_heard = record anna_moving { remote_endpoint = other_port; first_connection = false }

decode_datagram_twice_example :
    decode_datagram sum_crc toy_wire input_frame input_bytes 18 anna_heard
    ≡ decoded false anna_heard
unfolding decode_datagram load load_payload take_input hear_each Udp.connected
decode_datagram_twice_example =
    decode_datagram_twice sum_crc toy_wire memory input_frame input_bytes 18 anna_udp other_port
      ((other_port, memory, input_bytes, 18) ∷ []) anna_moving anna_heard refl refl

abbrev one_client : ClientCommunication ℕ
one_client = record { clients = anna_udp ∷ []; locked = false; transmit_buffer = [] }

abbrev logic : GameLogic ℕ ℕ
logic = new_game_logic 0

handle_transmit_delivers_example :
    let frame : List ℕ = get sum_crc (status_datagram sum_crc toy_wire memory logic) in
    let result = load sum_crc memory frame (length frame) in
    (handle_transmit sum_crc toy_wire memory (some logic) one_client
      ≡ done (
        record one_client { transmit_buffer = frame },
        (anna_udp.remote_endpoint, frame) ∷ [],
        1,
      ))
    × (result.1 ≡ loaded)
    × (result.0.version ≡ game_status_ver)
    × (result.0.payload ≡ status_bytes sum_crc toy_wire memory logic)
    × (payload_correctness sum_crc result.0 ≡ true)
unfolding status_bytes get_game_status new_game_logic
handle_transmit_delivers_example =
    handle_transmit_delivers sum_crc toy_wire memory logic one_client memory refl (omega arith)

abbrev sender : Endpoint
sender = record { address = "10.0.0.1"; port = 4000 }

handle_receive-ChangesAll_example :
    ChangesAll sender (anna_udp ∷ []) (connected sender anna_moving ∷ []) × (false ≡ false)
unfolding Udp.handle_receive receive_loop decode_datagram load load_payload take_input
handle_receive-ChangesAll_example =
    handle_receive-ChangesAll sum_crc toy_wire memory input_bytes 18 sender one_client none
      (record one_client { clients = connected sender anna_moving ∷ [] }) none refl

-- No text is an address.
abbrev no_address : String → Option String
no_address text = none

add_clients_deadlock_example :
    (after : ClientCommunication ℕ) × (add_clients whole_numbers no_address
        ([] ++ (anna ∷ []))
        one_client
      ≡ throws after)
    × ((cs : List Client) → add_clients whole_numbers no_address cs after ≡ blocked)
    × ((buffer : List ℕ) (size : ℕ) (remote : Endpoint) (logic : Option (GameLogic ℕ ℕ))
        → Udp.handle_receive sum_crc toy_wire memory buffer size remote after logic ≡ blocked)
    × ((logic : Option (GameLogic ℕ ℕ))
        → handle_transmit sum_crc toy_wire memory logic after ≡ blocked)
unfolding new_client_udp
add_clients_deadlock_example =
    add_clients_deadlock whole_numbers no_address sum_crc toy_wire memory [] [] anna [] one_client
      refl tt refl

abbrev peers : Peers ℕ ℕ
peers = record { comm = some one_client; logic = none }

abbrev connection : MainProcessComm ℕ ℕ
connection = record { stream = stream begin_seq [] 12 0 memory; peers = peers }

handle_receive-Finishes_example :
    Finishes
      (Tcp.handle_receive whole_numbers any_address sum_crc toy_wire (1 ∷ 0xDA ∷ []) connection)
handle_receive-Finishes_example =
    handle_receive-Finishes whole_numbers any_address sum_crc toy_wire (1 ∷ 0xDA ∷ []) connection tt
      (inr (omega arith)) refl

handle_receive-get_example :
    Tcp.handle_receive whole_numbers any_address sum_crc toy_wire
      ((1 ∷ []) ++ (get sum_crc input_frame ++ []))
      connection
    ≡ fault
unfolding use_datagram payload_correctness load_clients
handle_receive-get_example =
    handle_receive-get whole_numbers any_address sum_crc toy_wire (1 ∷ []) input_frame 12 0 memory
      peers peers tt (omega arith) refl
