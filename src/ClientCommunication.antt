-- ===== src/ClientCommunication.antt =====
-- client_communication/inc/client_communication.h and client_communication/client_communication.cpp:
-- the UDP side. The handlers of the socket and of the timer are functions on the state; the object
-- behind `game_logic_` is passed along, `none` where the pointer is null.
pub mod Delivery
pub mod Receiving
pub mod Locking
pub mod Steering
pub mod Hearing
use Prim.Native.String.{String}
use text.Mathlib.Text.{◌==◌ as str_eq}
use upzp_game_process.Prelude.{
  ℕ, Bool, true, false, Option, none, some, List, [], ◌∷◌, ◌++◌, map, if◌then◌else◌,
}
use upzp_game_process.Doubles.{Doubles}
use upzp_game_process.Datagram.{Crc, Datagram, get, set_version, set_payload, set_payload_checksum}
use upzp_game_process.Client.{Client}
use upzp_game_process.GameLogic.{GameLogic, set_player_movement, get_game_status}
use upzp_game_process.Wire.{Wire}
use upzp_game_process.ClientUdp.{
  ClientUdp, Endpoint, DecodeResult, decoded, rejects, new_client_udp, decode_datagram,
}

-- `locked` says that `clients_mutex_` is held between two operations.
pub record ClientCommunication (F : Type 0) : Type 0 where
  pub clients : List (ClientUdp F)
  pub locked : Bool
  pub transmit_buffer : List ℕ

abbrev pub game_status_ver : ℕ
game_status_ver = 100

-- How an operation ends: it returns, it throws, it waits for the mutex, or it has undefined
-- behaviour. `out_of_fuel` is an end of the model alone.
pub data Outcome (A : Type 0) : Type 0 where
  done throws : A → Outcome A
  blocked fault out_of_fuel : Outcome A

-- Goes on after an operation that returns; an exception passes through, with its state put in place.
abbrev pub and_then : {A B : Type 0} → (A → Outcome B) → (A → B) → Outcome A → Outcome B
and_then next place (done a) = next a
and_then next place (throws a) = throws (place a)
and_then next place blocked = blocked
and_then next place fault = fault
and_then next place out_of_fuel = out_of_fuel

module _ {R F : Type 0} (fl : Doubles R F) (make_address : String → Option String) where
  -- The loop of `AddClient` with the mutex held. An address that is none throws, and the mutex is
  -- not unlocked then.
  unfoldable pub emplace_all : List Client → ClientCommunication F → Outcome (ClientCommunication F)
  emplace_all [] cc = done (record cc { locked = false })
  emplace_all (client ∷ rest) cc = elim (new_client_udp fl make_address client) [
    | none ↦ throws (record cc { locked = true })
    | some c ↦ emplace_all rest (record cc { clients = cc.clients ++ (c ∷ []) })
  ]

  unfoldable pub add_clients : List Client → ClientCommunication F → Outcome (ClientCommunication F)
  add_clients clients cc = if cc.locked then blocked else emplace_all clients cc

  unfoldable pub add_client : Client → ClientCommunication F → Outcome (ClientCommunication F)
  unfolding add_clients
  add_client client cc = add_clients (client ∷ []) cc

module _ {F : Type 0} where
  -- The client with the sender's endpoint, after a good read.
  unfoldable pub connected : Endpoint → ClientUdp F → ClientUdp F
  connected remote c = record c { first_connection = false; remote_endpoint = remote }

module _ {R F : Type 0} where
  -- What the handler does with the result of decoding for one client; an exception is caught.
  abbrev pub after_decode :
      Endpoint
      → ClientUdp F
      → Option (GameLogic R F)
      → DecodeResult F
      → Option (ClientUdp F × Option (GameLogic R F))
  after_decode remote c logic (decoded true c') = some (
    connected remote c',
    elim logic [ none ↦ none | some l ↦ some (set_player_movement c'.input l) ],
  )
  after_decode remote c logic (decoded false c') = some (c', logic)
  after_decode remote c logic (rejects e) = some (c, logic)
  after_decode remote c logic DecodeResult.fault = none

module _ {R F : Type 0} (crc : Crc) (wire : Wire R F) (memory : Datagram) where
  -- The loop of the receive handler over the clients; `none` is a fault.
  unfoldable pub receive_loop :
      List ℕ
      → ℕ
      → Endpoint
      → List (ClientUdp F)
      → Option (GameLogic R F)
      → Option (List (ClientUdp F) × Option (GameLogic R F))
  receive_loop buffer size remote [] logic = some ([], logic)
  receive_loop buffer size remote (c ∷ cs) logic =
      elim (if str_eq remote.address c.client.ip_v4
        then after_decode remote c logic (decode_datagram crc wire memory buffer size c)
        else some (c, logic)) [
          | none ↦ none
          | some (c', logic') ↦ elim (receive_loop buffer size remote cs logic') [
            | none ↦ none
            | some (cs', last) ↦ some (c' ∷ cs', last)
          ]
        ]

  -- The handler of a received datagram of `size` bytes.
  unfoldable pub handle_receive :
      List ℕ
      → ℕ
      → Endpoint
      → ClientCommunication F
      → Option (GameLogic R F)
      → Outcome (ClientCommunication F × Option (GameLogic R F))
  handle_receive buffer size remote cc logic =
      if cc.locked then blocked else elim (receive_loop buffer size remote cc.clients logic) [
        | none ↦ fault
        | some (clients, logic') ↦ done (record cc { clients = clients }, logic')
      ]

module _ {R F : Type 0} (crc : Crc) (wire : Wire R F) (memory : Datagram) where
  -- The bytes in the builder: none without a game.
  unfoldable pub status_bytes : GameLogic R F → List ℕ
  status_bytes l = elim (get_game_status l) [ none ↦ [] | some table ↦ wire.finish_status table ]

  unfoldable pub status_datagram : GameLogic R F → Datagram
  status_datagram l =
      set_payload_checksum true (set_payload (status_bytes l) (set_version game_status_ver memory))

  unfoldable pub get_game_status_into_transmit_buffer :
      Option (GameLogic R F) → ClientCommunication F → ClientCommunication F
  get_game_status_into_transmit_buffer none cc = cc
  get_game_status_into_transmit_buffer (some l) cc = record cc {
    transmit_buffer = get crc (status_datagram l);
  }

  -- The handler of the transmit timer: the new state, the datagrams sent, and how often it calls
  -- `StartTransmit`. The call for a missing game logic does not leave the handler.
  unfoldable pub handle_transmit :
      Option (GameLogic R F)
      → ClientCommunication F
      → Outcome (ClientCommunication F × List (Endpoint × List ℕ) × ℕ)
  handle_transmit logic cc =
      let cc' = get_game_status_into_transmit_buffer logic cc in
      if cc.locked
      then blocked
      else done (
        cc',
        map (λ c. (c.remote_endpoint, cc'.transmit_buffer)) cc'.clients,
        elim logic [ none ↦ 2 | some l ↦ 1 ],
      )
