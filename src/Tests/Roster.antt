-- ===== src/Tests/Roster.antt =====
-- A datagram that brings one client.
use upzp_game_process.Prelude.{ℕ, ◌≡◌, refl, true, false, some, [], ◌∷◌}
use upzp_game_process.Datagram.{Datagram}
use upzp_game_process.Client.{Client, car}
use upzp_game_process.GameLogic.{GameLogic, new_game_logic}
use upzp_game_process.ClientUdp.{ClientUdp, new_client_udp}
use upzp_game_process.ClientCommunication.{ClientCommunication, done}
use upzp_game_process.MainProcessComm.{load_clients, read_client, vehicle_type}
use upzp_game_process.MainProcessComm.Roster.{enlist, load_clients-Made}
use upzp_game_process.Tests.Toys.{
  input_frame, toy_wire, two_teams, one_client, whole_numbers, any_address,
}

abbrev anna : Client
anna = record { name = "Anna"; id = 1; vehicle = car; ip_v4 = "10.0.0.1"; port = 8850 }

abbrev anna_udp : ClientUdp ℕ
anna_udp = record {
  client = anna;
  input = record { id = 1; move = false; direction = 0 };
  last_sequence = 0;
  remote_endpoint = record { address = "10.0.0.1"; port = 8850 };
  first_connection = true;
}

abbrev clients_frame : Datagram
clients_frame = record input_frame { version = 10 }

abbrev nobody : ClientCommunication ℕ
nobody = record { clients = []; locked = false; transmit_buffer = [] }

abbrev logic : GameLogic ℕ ℕ
logic = new_game_logic 0

load_clients-Made_example :
    load_clients whole_numbers any_address toy_wire clients_frame
      (record { comm = some nobody; logic = some logic })
    ≡ done (record {
      comm = some (record nobody { clients = anna_udp ∷ []; locked = false });
      logic =
          enlist whole_numbers any_address false []
            (enlist whole_numbers any_address true (anna ∷ []) (some logic));
    })
unfolding read_client vehicle_type new_client_udp
load_clients-Made_example =
    load_clients-Made whole_numbers any_address toy_wire clients_frame two_teams []
      (one_client ∷ []) [] (anna ∷ []) [] (anna_udp ∷ []) [] nobody (some logic) refl refl refl refl
      (refl, tt) tt (refl, tt) tt
