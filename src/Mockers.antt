-- ===== src/Mockers.antt =====
-- main_process_communication_mocker and client_communication_mocker, beside UPZP-GameProcess: the
-- messages that stand for the main process and for a client when the sub-process is tried out.
pub mod Roster
pub mod Inputs
pub mod Reading
pub mod Programs
pub mod Arrival
pub mod Strangers
pub mod Reordering
use Prim.Native.String.{String, ◌++◌ as ◌<>◌}
use upzp_game_process.Prelude.{
  ℕ, zero, suc, ◌+◌, ◌%◌, ◌^◌, Bool, true, false, Option, none, some, List, [], ◌∷◌, length, ltb,
  ◌==◌, if◌then◌else◌,
}
use upzp_game_process.Prelude.Int.{ℤ, pos}
use upzp_game_process.Datagram.{
  Crc, Datagram, LoadError, LoadResult, loaded, load, set_version, set_payload,
  set_payload_checksum,
}
use upzp_game_process.Player.{PlayerTable}
use upzp_game_process.Game.{PointBox}
use upzp_game_process.Wire.{
  InputTable, FVehicleType, f_pedestrian, f_cyclist, f_car, FClient, FTeam, FGame,
}

-- The tables of game_status.fbs as they are read.
pub record FStatusTeam (R : Type 0) : Type 0 where
  pub players : Option (List (PlayerTable R))

pub record FStatus (R : Type 0) : Type 0 where
  pub sequence : ℕ
  pub teams : Option (List (FStatusTeam R))
  pub boxes : Option (List (PointBox R))
  pub finished : Bool

-- The half of the FlatBuffers library that the sub-process itself does not use.
pub record MockerWire (R F : Type 0) : Type 0 where
  pub finish_game : FGame → List ℕ
  pub finish_input : InputTable F → List ℕ
  pub get_status : List ℕ → Option (FStatus R)

-- The two static variables `vehicle`, each of type `uint8_t`.
pub record Statics : Type 0 where
  pub red_vehicle : ℕ
  pub blue_vehicle : ℕ

abbrev pub initial_statics : Statics
initial_statics = record { red_vehicle = 1; blue_vehicle = 1 }

-- `if (++vehicle > 3) vehicle = 1;`
abbrev pub next_vehicle : ℕ → ℕ
next_vehicle vehicle = let w = (vehicle + 1) % 256 in if ltb 3 w then 1 else w

-- The vehicle of the table, and the variable behind the switch.
abbrev pub mock_vehicle : ℕ → FVehicleType × ℕ
mock_vehicle vehicle =
    if vehicle == 1
    then (f_pedestrian, vehicle)
    else if vehicle == 2
    then (f_cyclist, vehicle)
    else if vehicle == 3
    then (f_car, vehicle)
    else (f_pedestrian, 1)

-- `std::to_string` is a parameter.
module _ (to_string : ℕ → String) where
  -- One player of the team with this suffix, with its first ID and first port.
  abbrev pub mock_client : String → ℕ → ℕ → ℕ → FVehicleType → FClient
  mock_client suffix first_id first_port i vehicle = record {
    name = some ("player_" <> to_string (i + 1) <> suffix);
    id = (first_id + i) % 2 ^ 32;
    ip_address = some "127.0.0.1";
    port = pos ((first_port + i) % 2 ^ 16);
    vehicle = some vehicle;
  }

  -- So many rounds of one of the two loops, from `i` on.
  unfoldable pub mock_players : String → ℕ → ℕ → ℕ → ℕ → ℕ → List FClient × ℕ
  mock_players suffix first_id first_port zero i vehicle = ([], vehicle)
  mock_players suffix first_id first_port (suc rounds) i vehicle =
      let (kind, v) = mock_vehicle (next_vehicle vehicle) in
      let (rest, last) = mock_players suffix first_id first_port rounds (i + 1) v in
      (mock_client suffix first_id first_port i kind ∷ rest, last)

  -- The table `Game` of the message, and the static variables behind the call.
  unfoldable pub mock_game : ℕ → ℕ → Statics → FGame × Statics
  mock_game team_1_player_count team_2_player_count statics =
      let (reds, v) =
        mock_players "_team_red" 1000 5100 team_1_player_count 0 statics.red_vehicle in
      let (blues, w) =
        mock_players "_team_blue" 2000 5500 team_2_player_count 0 statics.blue_vehicle in
      (
        record {
          id = pos 55555;
          teams = some (record { clients = some reds } ∷ record { clients = some blues } ∷ []);
        },
        record { red_vehicle = v; blue_vehicle = w },
      )

  module _ {R F : Type 0} (wire : MockerWire R F) (memory : Datagram) where
    unfoldable pub mock_player_list_datagram : ℕ → ℕ → Statics → Datagram × Statics
    mock_player_list_datagram team_1_player_count team_2_player_count statics =
        let (game, statics') = mock_game team_1_player_count team_2_player_count statics in
        (
          set_payload (wire.finish_game game) (set_payload_checksum true (set_version 10 memory)),
          statics',
        )

module _ {R F : Type 0} (wire : MockerWire R F) (memory : Datagram) where
  unfoldable pub mock_input_datagram : ℕ → ℕ → Bool → F → Datagram
  mock_input_datagram seq id move dir =
      set_payload
        (wire.finish_input
          (record { sequence = seq; id = id; disconnect = false; direction = dir; move = move }))
        (set_payload_checksum false (set_version 101 memory))

-- What `DecodeGameStatus` comes to: a text, an exception of `Load`, or undefined behaviour.
pub data Decoded : Type 0 where
  text : String → Decoded
  throws : LoadError → Decoded
  fault : Decoded

module _ {R : Type 0} where
  -- The loop over the teams, with the `uint32_t` that it adds to; `none` is a null pointer that the
  -- code follows.
  unfoldable pub count_players : ℕ → List (FStatusTeam R) → Option ℕ
  count_players n [] = some n
  count_players n (t ∷ ts) = elim t.players [
    | none ↦ none
    | some ps ↦ count_players ((n + length ps) % 2 ^ 32) ts
  ]

module _ (to_string : ℕ → String) where
  abbrev pub status_text : ℕ → ℕ → ℕ → Bool → ℕ → String
  status_text teams_count players_count point_boxes_count finished seq =
      "teams count: "
      <> to_string teams_count
      <> "; players count: "
      <> to_string players_count
      <> "; point boxes count: "
      <> to_string point_boxes_count
      <> "; finished: "
      <> to_string (if finished then 1 else 0)
      <> "; seq: "
      <> to_string seq

module _ {R : Type 0} (to_string : ℕ → String) where
  abbrev pub describe_lists :
      FStatus R → Option (List (FStatusTeam R)) → Option (List (PointBox R)) → Decoded
  describe_lists s none boxes = fault
  describe_lists s (some ts) boxes = elim (count_players 0 ts) [
    | none ↦ fault
    | some players ↦ elim boxes [
      | none ↦ fault
      | some bs ↦ text (status_text to_string (length ts) players (length bs) s.finished s.sequence)
    ]
  ]

  abbrev pub describe : Option (FStatus R) → Decoded
  describe none = fault
  describe (some s) = describe_lists s s.teams s.boxes

module _ {R F : Type 0} (to_string : ℕ → String) (crc : Crc) (wire : MockerWire R F) where
  abbrev pub after_load : Datagram × LoadResult → Decoded
  after_load (d, loaded) =
      if d.version == 100
      then describe to_string (wire.get_status d.payload)
      else text "not correct version"
  after_load (d, LoadResult.throws e) = throws e
  after_load (d, LoadResult.fault) = fault

  unfoldable pub decode_game_status : Datagram → List ℕ → ℕ → Decoded
  decode_game_status memory buffer size = after_load (load crc memory buffer size)
