-- ===== src/MainProcessComm.antt =====
-- main_process_comm/inc/main_process_comm.h and main_process_comm/main_process_comm.cpp: the TCP side.
pub mod Receive
pub mod Finishing
pub mod Roster
pub mod Conversation
use Prim.Native.String.{String}
use upzp_game_process.Prelude.{
  ℕ, zero, suc, ◌-◌, ◌%◌, ◌^◌, Bool, true, false, Option, none, some, List, [], ◌∷◌, ◌++◌, length,
  ◌==◌, if◌then◌else◌,
}
use upzp_game_process.Prelude.Int.{ℤ, pos, negsuc}
use upzp_game_process.Doubles.{Doubles}
use upzp_game_process.Datagram.{
  Crc, Datagram, get, set_version, set_payload, set_payload_checksum, payload_correctness,
}
use upzp_game_process.DatagramStream.{
  DatagramStream, Progress, returned, again, add_data, flush_data,
}
use upzp_game_process.Client.{VehicleType, pedestrian, cyclist, car, Client, new_client}
use upzp_game_process.Player.{signed32}
use upzp_game_process.GameLogic.{GameLogic, add_player}
use upzp_game_process.Wire.{
  Wire, FVehicleType, f_pedestrian, f_cyclist, f_car, f_unknown, FClient, FTeam, FGame,
}
use upzp_game_process.ClientCommunication.{
  ClientCommunication, Outcome, done, throws, blocked, fault, out_of_fuel, and_then, add_client,
}

abbrev pub game_clients_version : ℕ
game_clients_version = 10

-- The objects behind `client_comm_` and `game_logic_`.
pub record Peers (R F : Type 0) : Type 0 where
  pub comm : Option (ClientCommunication F)
  pub logic : Option (GameLogic R F)

pub record MainProcessComm (R F : Type 0) : Type 0 where
  pub stream : DatagramStream
  pub peers : Peers R F

unfoldable pub vehicle_type : FVehicleType → VehicleType
vehicle_type f_pedestrian = pedestrian
vehicle_type f_cyclist = cyclist
vehicle_type f_car = car
vehicle_type f_unknown = pedestrian

-- An `int` as an `unsigned int`.
abbrev pub unsigned32 : ℤ → ℕ
unsigned32 (pos n) = n % 2 ^ 32
unsigned32 (negsuc n) = 2 ^ 32 - 1 - n % 2 ^ 32

-- `none` where an accessor gives a null pointer that the code follows.
unfoldable pub read_client : FClient → Option Client
read_client c = elim c.vehicle [
  | none ↦ none
  | some vehicle ↦ elim c.name [
    | none ↦ none
    | some name ↦ elim c.ip_address [
      | none ↦ none
      | some ip ↦ some (new_client name c.id (vehicle_type vehicle) ip (unsigned32 c.port))
    ]
  ]
]

module _ {R F : Type 0} (fl : Doubles R F) (make_address : String → Option String) where
  -- `if (client_comm_) client_comm_->AddClient(_client);`
  abbrev pub into_comm :
      Client → Option (ClientCommunication F) → Outcome (Option (ClientCommunication F))
  into_comm client none = done none
  into_comm client (some cc) =
      and_then (λ cc'. done (some cc')) some (add_client fl make_address client cc)

  -- `if (game_logic_) game_logic_->AddPlayer(_client, i == 0);`
  abbrev pub into_logic : Client → Bool → Option (GameLogic R F) → Option (GameLogic R F)
  into_logic client red none = none
  into_logic client red (some l) = some (add_player fl client red l)

  -- One client: the UDP side first, then the game. An exception of the first skips the second.
  unfoldable pub load_client : Bool → Client → Peers R F → Outcome (Peers R F)
  load_client red client p =
      and_then (λ comm. done (record { comm = comm; logic = into_logic client red p.logic }))
        (λ comm. record p { comm = comm }) (into_comm client p.comm)

  -- The loop over the clients of one team.
  unfoldable pub load_team : Bool → List FClient → Peers R F → Outcome (Peers R F)
  load_team red [] p = done p
  load_team red (c ∷ cs) p = elim (read_client c) [
    | none ↦ fault
    | some client ↦ and_then (load_team red cs) (λ q. q) (load_client red client p)
  ]

  abbrev pub load_clients_of : Bool → FTeam → Peers R F → Outcome (Peers R F)
  load_clients_of red team p = elim team.clients [ none ↦ fault | some cs ↦ load_team red cs p ]

  -- The two rounds of the outer loop. The first team is red; more than two are ignored.
  unfoldable pub load_teams : List FTeam → Peers R F → Outcome (Peers R F)
  load_teams [] p = done p
  load_teams (red ∷ []) p = done p
  load_teams (red ∷ (blue ∷ more)) p =
      and_then (load_clients_of false blue) (λ q. q) (load_clients_of true red p)

  abbrev pub load_game : Option FGame → Peers R F → Outcome (Peers R F)
  load_game none p = fault
  load_game (some game) p = elim game.teams [ none ↦ fault | some teams ↦ load_teams teams p ]

  unfoldable pub load_clients : Wire R F → Datagram → Peers R F → Outcome (Peers R F)
  load_clients wire d p =
      if d.version == game_clients_version then load_game (wire.get_game d.payload) p else done p

module _ {R F : Type 0} (fl : Doubles R F) (make_address : String → Option String) (crc : Crc)
    (wire : Wire R F) where
  -- What the handler does with a datagram that the stream has completed.
  unfoldable pub use_datagram : DatagramStream → Peers R F → Outcome (Peers R F)
  use_datagram s p =
      if payload_correctness crc s.datagram
      then load_clients fl make_address wire s.datagram p
      else done p

  -- The `if` on `AddData` with the `while` on `FlushData` behind it: both use a completed datagram
  -- and flush again.
  unfoldable pub drain : ℕ → Progress → Peers R F → Outcome (MainProcessComm R F)
  drain zero r p = out_of_fuel
  drain (suc fuel) Progress.fault p = fault
  drain (suc fuel) (again s) p = out_of_fuel
  drain (suc fuel) (returned false s) p = done (record { stream = s; peers = p })
  drain (suc fuel) (returned true s) p =
      and_then (λ q. drain fuel (flush_data crc s) q) (λ q. record { stream = s; peers = q })
        (use_datagram s p)

  -- The handler of received bytes, without an error of the connection. Each datagram takes 12 bytes
  -- at least, so the bytes and one more are fuel enough.
  unfoldable pub handle_receive : List ℕ → MainProcessComm R F → Outcome (MainProcessComm R F)
  handle_receive bytes m =
      drain (suc (suc (length (m.stream.buffer ++ bytes)))) (add_data crc bytes m.stream) m.peers

module _ {R F : Type 0} (crc : Crc) (wire : Wire R F) (memory : Datagram) where
  -- The bytes that `TransmitGameId` and `SendGameFinished` write to the socket.
  unfoldable pub game_id_message : ℕ → List ℕ
  game_id_message game_id = get crc (
      set_payload (wire.finish_game_id (record { id = signed32 game_id }))
        (set_payload_checksum false (set_version 12 memory)))

  unfoldable pub game_finished_message : List ℕ
  game_finished_message = get crc (
      set_payload (wire.finish_game_ended (record { ended = true }))
        (set_payload_checksum false (set_version 11 memory)))
