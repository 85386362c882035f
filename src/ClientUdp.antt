-- ===== src/ClientUdp.antt =====
-- client_communication/inc/client_udp.h and client_communication/client_udp.cpp.
pub mod Sequence
use Prim.Native.String.{String}
use mathlib.Core.Option
use upzp_game_process.Prelude.{
  ℕ, ◌%◌, ◌^◌, Bool, true, false, ◌&&◌, Option, none, some, List, ltb, ◌==◌, if◌then◌else◌,
}
use upzp_game_process.Doubles.{Doubles}
use upzp_game_process.Datagram.{Crc, Datagram, LoadError, LoadResult, loaded, load}
use upzp_game_process.Client.{Client, PlayerInput}
use upzp_game_process.Wire.{Wire, InputTable}

-- An address is the text that `to_string` gives for it.
pub record Endpoint : Type 0 where
  pub address : String
  pub port : ℕ

pub record ClientUdp (F : Type 0) : Type 0 where
  pub client : Client
  pub input : PlayerInput F
  pub last_sequence : ℕ
  pub remote_endpoint : Endpoint
  pub first_connection : Bool

abbrev pub datagram_player_input_ver : ℕ
datagram_player_input_ver = 101

-- `fault` is undefined behaviour.
pub data DecodeResult (F : Type 0) : Type 0 where
  decoded : Bool → ClientUdp F → DecodeResult F
  rejects : LoadError → DecodeResult F
  fault : DecodeResult F

module _ {R F : Type 0} (fl : Doubles R F) where
  -- The constructor, with the result of `make_address` for the client's address; that throws where
  -- the text is no address. A port is a `uint16_t`.
  unfoldable pub new_client_udp : (String → Option String) → Client → Option (ClientUdp F)
  new_client_udp make_address client =
      Option.map
        (λ address. record {
          client = client;
          input = record { id = client.id; move = false; direction = fl.float_zero };
          last_sequence = 0;
          remote_endpoint = record { address = address; port = client.port % 2 ^ 16 };
          first_connection = true;
        })
        (make_address client.ip_v4)

module _ {F : Type 0} where
  -- A newer input of this client is taken over.
  unfoldable pub take_input : InputTable F → ClientUdp F → DecodeResult F
  take_input table c =
      if ltb c.last_sequence table.sequence && table.id == c.client.id
      then decoded true (record c {
        input = record c.input { move = table.move; direction = table.direction };
        last_sequence = table.sequence;
      })
      else decoded false c

  abbrev pub take_message : Option (InputTable F) → ClientUdp F → DecodeResult F
  take_message none c = fault
  take_message (some table) c = take_input table c

module _ {R F : Type 0} (crc : Crc) (wire : Wire R F) where
  abbrev pub after_load : Datagram × LoadResult → ClientUdp F → DecodeResult F
  after_load (d, loaded) c =
      if d.version == datagram_player_input_ver
      then take_message (wire.get_input d.payload) c
      else decoded false c
  after_load (d, LoadResult.throws e) c = rejects e
  after_load (d, LoadResult.fault) c = fault

  -- `memory` is what the local datagram holds before `Load`.
  unfoldable pub decode_datagram : Datagram → List ℕ → ℕ → ClientUdp F → DecodeResult F
  decode_datagram memory buffer size c = after_load (load crc memory buffer size) c
