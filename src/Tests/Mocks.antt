-- ===== src/Tests/Mocks.antt =====
-- The mocked messages, with a library that reads back what it was given.
use Prim.Native.String.{String}
use mathlib.Core.List.Permᴰ as Permᴰ
use upzp_game_process.Prelude.{
  map, ℕ, ◌≤◌, ◌<◌, ◌≡◌, ◌⊎◌, refl, true, false, Option, none, some, List, [], ◌∷◌, length, arith,
}
use upzp_game_process.Prelude.Int.{pos}
use upzp_game_process.Datagram.{get}
use upzp_game_process.Client.{car}
use upzp_game_process.Player.{Coordinates}
use upzp_game_process.Game.{Draw, Game, new_game, game_table}
use upzp_game_process.GameLogic.{GameLogic, new_game_logic, get_game_status}
use upzp_game_process.Wire.{Wire, InputTable, f_pedestrian, f_cyclist, f_car}
use upzp_game_process.ClientUdp.{ClientUdp}
use upzp_game_process.ClientCommunication.{ClientCommunication, status_datagram, status_bytes}
use upzp_game_process.Mockers.{
  mock_players, initial_statics, MockerWire, text, status_text, mock_game, decode_game_status,
}
use upzp_game_process.Mockers.Reading.{written, decode_game_status-get}
use upzp_game_process.Mockers.Inputs.{Press, hear_all, Settled, Holds, hear_all-Holds}
use upzp_game_process.Mockers.Reordering.{press, hear_all_comm}
use upzp_game_process.Tests.Toys.{sum_crc, memory, whole_numbers}

abbrev center : Coordinates ℕ
center = record { longitude = 17; latitude = 51 }

abbrev no_draws : ℕ → Draw ℕ
no_draws n = record { distance = 0; angle = 0 }

abbrev pub empty_game : Game ℕ ℕ
empty_game = new_game whole_numbers (pos 1000) center 50 no_draws

abbrev pub nobody : ClientCommunication ℕ
nobody = record { clients = []; locked = false; transmit_buffer = [] }

abbrev pub logic : GameLogic ℕ ℕ
logic = record (new_game_logic 0) { game = some empty_game }

abbrev pub any_digits : ℕ → String
any_digits n = "7"

-- One message of each kind in three bytes: what is written is what is read.
abbrev pub mock_wire : MockerWire ℕ ℕ
mock_wire = record {
  finish_game = λ game. 1 ∷ 2 ∷ 3 ∷ [];
  finish_input = λ table. table.sequence ∷ table.id ∷ table.direction ∷ [];
  get_status = λ bytes. some (written (game_table 0 empty_game));
}

abbrev read : List ℕ → Option (InputTable ℕ)
read (sequence ∷ (id ∷ (direction ∷ rest))) = some (record {
  sequence = sequence;
  id = id;
  disconnect = false;
  direction = direction;
  move = true;
})
read _ = none

abbrev pub real_wire : Wire ℕ ℕ
real_wire = record {
  get_input = λ bytes. read bytes;
  get_game = λ bytes. some (mock_game any_digits 2 1 initial_statics).0;
  finish_status = λ table. 1 ∷ 2 ∷ 3 ∷ [];
  finish_game_id = λ table. 1 ∷ [];
  finish_game_ended = λ table. 1 ∷ [];
}

decode_game_status-get_example :
    let frame = get sum_crc (status_datagram sum_crc real_wire memory logic) in
    decode_game_status any_digits sum_crc mock_wire memory frame (length frame)
    ≡ text (status_text any_digits 2 0 0 false 0)
unfolding status_bytes get_game_status new_game_logic
decode_game_status-get_example =
    decode_game_status-get any_digits sum_crc real_wire mock_wire memory memory logic empty_game
      refl (omega arith) refl

abbrev pub anna_udp : ClientUdp ℕ
anna_udp = record {
  client = record { name = "Anna"; id = 1; vehicle = car; ip_v4 = "127.0.0.1"; port = 5100 };
  input = record { id = 1; move = false; direction = 0 };
  last_sequence = 3;
  remote_endpoint = record { address = "127.0.0.1"; port = 5100 };
  first_connection = true;
}

-- Three inputs, of which the last has been overtaken and the first is old.
abbrev presses : List (Press ℕ)
presses =
    record { seq = 2; move = true; dir = 1 }
    ∷ record { seq = 9; move = true; dir = 5 }
    ∷ record { seq = 6; move = true; dir = 4 }
    ∷ []

hear_all-Holds_example :
    (d : ClientUdp ℕ) × (hear_all sum_crc real_wire mock_wire memory 1 presses anna_udp ≡ some d)
    × (d.client ≡ anna_udp.client)
    × (3 ≤ d.last_sequence)
    × Settled sum_crc real_wire mock_wire memory 1 presses d
    × ((d ≡ anna_udp)
        ⊎ (Holds sum_crc real_wire mock_wire memory 1 presses d × (3 < d.last_sequence)))
hear_all-Holds_example =
    hear_all-Holds sum_crc real_wire mock_wire memory 1 presses anna_udp refl
      ((omega arith, refl), ((omega arith, refl), ((omega arith, refl), tt)))

-- The second input comes twice, and once behind the fifth.
hear_all_comm_example :
    (d : ClientUdp ℕ) × (hear_all sum_crc real_wire mock_wire memory 1
        (map (press (λ k. true) (λ k. k)) (2 ∷ 2 ∷ 5 ∷ []))
        anna_udp
      ≡ some d)
    × (hear_all sum_crc real_wire mock_wire memory 1
          (map (press (λ k. true) (λ k. k)) (2 ∷ 5 ∷ 2 ∷ []))
          anna_udp
        ≡ some d)
hear_all_comm_example =
    hear_all_comm sum_crc real_wire mock_wire memory 1 (λ k. true) (λ k. k)
      (λ k fits. (omega arith, refl)) (2 ∷ 2 ∷ 5 ∷ []) (2 ∷ 5 ∷ 2 ∷ []) anna_udp refl
      (omega arith, (omega arith, (omega arith, tt))) (Permᴰ.cons refl (Permᴰ.swap refl refl))

-- The vehicles go round, and the first one is the cyclist's.
vehicles_go_round :
    map (λ c. c.vehicle) (mock_players any_digits "_team_red" 1000 5100 4 0 1).0
    ≡ some f_cyclist ∷ some f_car ∷ some f_pedestrian ∷ some f_cyclist ∷ []
unfolding mock_players
vehicles_go_round = refl
