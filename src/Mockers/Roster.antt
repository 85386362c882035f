-- ===== src/Mockers/Roster.antt =====
-- Who takes part after the mocked player list of the main process.
use Prim.Native.String.{String, ◌++◌ as ◌<>◌}
use upzp_game_process.Prelude.{
  ℕ, zero, suc, ◌+◌, ◌%◌, ◌^◌, ◌<◌, ◌≡◌, refl, ap, ◌∙◌, true, false, Option, some, List, [], ◌∷◌,
  ◌++◌, length, length-append, map, arith,
}
use upzp_game_process.Prelude.Int.{pos}
use upzp_game_process.Doubles.{Doubles}
use upzp_game_process.Datagram.{Datagram, set_version, set_payload, set_payload_checksum}
use upzp_game_process.Client.{Client}
use upzp_game_process.Game.{Game}
use upzp_game_process.GameLogic.{GameLogic}
use upzp_game_process.Wire.{Wire, FVehicleType}
use upzp_game_process.ClientUdp.{ClientUdp, new_client_udp}
use upzp_game_process.ClientCommunication.{ClientCommunication, done}
use upzp_game_process.ClientCommunication.Locking.{Made}
use upzp_game_process.MainProcessComm.{
  game_clients_version, load_clients, read_client, unsigned32, vehicle_type,
}
use upzp_game_process.MainProcessComm.Roster.{Reads, player_ids, load_clients-Made, enlist_players}
use upzp_game_process.Mockers.{
  Statics, MockerWire, next_vehicle, mock_vehicle, mock_players, mock_game,
  mock_player_list_datagram,
}

-- So many IDs from the `i`-th on.
abbrev pub ids_from : ℕ → ℕ → ℕ → List ℕ
ids_from first_id zero i = []
ids_from first_id (suc rounds) i = (first_id + i) % 2 ^ 32 ∷ ids_from first_id rounds (i + 1)

-- The address of every mocked client.
abbrev pub home : String
home = "127.0.0.1"

module _ (to_string : ℕ → String) where
  -- The datagram around the player list.
  pub listed :
      {R F : Type 0} (mw : MockerWire R F) (memory : Datagram) (m n : ℕ) (statics : Statics)
      → let bytes = mw.finish_game (mock_game to_string m n statics).0 in
        length bytes < 2 ^ 32
        → let d = (mock_player_list_datagram to_string mw memory m n statics).0 in
          (d.version ≡ game_clients_version)
          × (d.payload ≡ bytes)
          × (d.payload_checksum_included ≡ true)
  unfolding mock_player_list_datagram set_payload set_payload_checksum set_version
  listed mw memory m n statics small = ground arith

  abbrev meant_client : String → ℕ → ℕ → ℕ → FVehicleType → Client
  meant_client suffix first_id first_port i vehicle = record {
    name = "player_" <> to_string (i + 1) <> suffix;
    id = (first_id + i) % 2 ^ 32;
    vehicle = vehicle_type vehicle;
    ip_v4 = home;
    port = unsigned32 (pos ((first_port + i) % 2 ^ 16));
  }

  -- The clients that the tables of one loop mean.
  abbrev meant : String → ℕ → ℕ → ℕ → ℕ → ℕ → List Client
  meant suffix first_id first_port zero i vehicle = []
  meant suffix first_id first_port (suc rounds) i vehicle =
      meant_client suffix first_id first_port i (mock_vehicle (next_vehicle vehicle)).0
      ∷ meant suffix first_id first_port rounds (i + 1) (mock_vehicle (next_vehicle vehicle)).1

  mock_players-Reads :
      (suffix : String) (first_id first_port rounds i vehicle : ℕ)
      → Reads
          (mock_players to_string suffix first_id first_port rounds i vehicle).0
          (meant suffix first_id first_port rounds i vehicle)
  unfolding mock_players read_client
  mock_players-Reads suffix first_id first_port zero i vehicle = tt
  mock_players-Reads suffix first_id first_port (suc rounds) i vehicle =
      (refl, mock_players-Reads suffix first_id first_port rounds (i + 1) _)

  meant_ids :
      (suffix : String) (first_id first_port rounds i vehicle : ℕ)
      → map (λ c. c.id) (meant suffix first_id first_port rounds i vehicle)
        ≡ ids_from first_id rounds i
  meant_ids suffix first_id first_port zero i vehicle = refl
  meant_ids suffix first_id first_port (suc rounds) i vehicle =
      ap (◌∷◌ ((first_id + i) % 2 ^ 32)) (
        meant_ids suffix first_id first_port rounds (i + 1) (mock_vehicle (next_vehicle vehicle)).1)

  module _ {R F : Type 0} (fl : Doubles R F) (make_address : String → Option String)
      (address : String) (at_home : make_address home ≡ some address) where
    abbrev served : Client → ClientUdp F
    served client = record {
      client = client;
      input = record { id = client.id; move = false; direction = fl.float_zero };
      last_sequence = 0;
      remote_endpoint = record { address = address; port = client.port % 2 ^ 16 };
      first_connection = true;
    }

    meant-Made :
        (suffix : String) (first_id first_port rounds i vehicle : ℕ)
        → Made fl make_address
            (meant suffix first_id first_port rounds i vehicle)
            (map served (meant suffix first_id first_port rounds i vehicle))
    unfolding new_client_udp
    meant-Made suffix first_id first_port zero i vehicle = tt
    meant-Made suffix first_id first_port (suc rounds) i vehicle =
        (rw at_home refl, meant-Made suffix first_id first_port rounds (i + 1) _)

    length-served :
        (suffix : String) (first_id first_port rounds i vehicle : ℕ)
        → length (map served (meant suffix first_id first_port rounds i vehicle)) ≡ rounds
    length-served suffix first_id first_port zero i vehicle = refl
    length-served suffix first_id first_port (suc rounds) i vehicle =
        ap suc (length-served suffix first_id first_port rounds (i + 1) _)

    -- The mocked player list with `m` red and `n` blue players, in a message that is shorter than
    -- 2 ^ 32 bytes and reads back as it was built, taken by a sub-process whose mutex is free and
    -- whose game logic has a game: the game gets `m` red players with the IDs from 1000 on and `n`
    -- blue ones with the IDs from 2000 on, behind those that are there, and the UDP side gets
    -- `m + n` clients behind its own.
    pub load_clients-mock_player_list_datagram :
        (wire : Wire R F) (mw : MockerWire R F) (memory : Datagram) (m n : ℕ) (statics : Statics)
        → (comm : ClientCommunication F) (l : GameLogic R F) (g : Game R F)
        → length (mw.finish_game (mock_game to_string m n statics).0) < 2 ^ 32
        → wire.get_game (mw.finish_game (mock_game to_string m n statics).0)
          ≡ some (mock_game to_string m n statics).0
        → comm.locked ≡ false
        → (us : List (ClientUdp F)) × (h : Game R F) × (load_clients fl make_address wire
              (mock_player_list_datagram to_string mw memory m n statics).0
              (record { comm = some comm; logic = some (record l { game = some g }) })
            ≡ done (record {
              comm = some (record comm { clients = comm.clients ++ us; locked = false });
              logic = some (record l { game = some h });
            }))
          × (length us ≡ m + n)
          × (player_ids fl make_address h.red_team
              ≡ player_ids fl make_address g.red_team ++ ids_from 1000 m 0)
          × (player_ids fl make_address h.blue_team
              ≡ player_ids fl make_address g.blue_team ++ ids_from 2000 n 0)
    unfolding mock_game
    load_clients-mock_player_list_datagram wire mw memory m n statics comm l g small reads free =
        let reds : List Client = meant "_team_red" 1000 5100 m 0 statics.red_vehicle in
        let blues : List Client = meant "_team_blue" 2000 5500 n 0 statics.blue_vehicle in
        let listed_at = listed mw memory m n statics small in
        let (h, enlisted, red, blue) = enlist_players fl make_address reds blues l g in
        (
          map served reds ++ map served blues,
          h,
          load_clients-Made fl make_address wire
                (mock_player_list_datagram to_string mw memory m n statics).0
                (mock_game to_string m n statics).0 []
                (mock_players to_string "_team_red" 1000 5100 m 0 statics.red_vehicle).0
                (mock_players to_string "_team_blue" 2000 5500 n 0 statics.blue_vehicle).0 reds
                blues (map served reds) (map served blues) comm (some (record l { game = some g }))
                listed_at.0 (ap wire.get_game listed_at.1 ∙ reads) refl free
                (mock_players-Reads "_team_red" 1000 5100 m 0 statics.red_vehicle)
                (mock_players-Reads "_team_blue" 2000 5500 n 0 statics.blue_vehicle)
                (meant-Made "_team_red" 1000 5100 m 0 statics.red_vehicle)
                (meant-Made "_team_blue" 2000 5500 n 0 statics.blue_vehicle)
              ∙ ap
                  (λ logic. done (record {
                    comm = some (record comm {
                      clients = comm.clients ++ (map served reds ++ map served blues);
                      locked = false;
                    });
                    logic = logic;
                  }))
                  enlisted,
          rw
              (
                length-append,
                length-served "_team_red" 1000 5100 m 0 statics.red_vehicle,
                length-served "_team_blue" 2000 5500 n 0 statics.blue_vehicle,
              )
              refl,
          red
              ∙ ap (◌++◌ (player_ids fl make_address g.red_team))
                  (meant_ids "_team_red" 1000 5100 m 0 statics.red_vehicle),
          blue
              ∙ ap (◌++◌ (player_ids fl make_address g.blue_team))
                  (meant_ids "_team_blue" 2000 5500 n 0 statics.blue_vehicle),
        )
