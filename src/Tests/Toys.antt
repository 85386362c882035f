-- ===== src/Tests/Toys.antt =====
-- Small parameters: a checksum that adds bytes, natural numbers for `double` and `float`, and
-- messages of two bytes.
use Prim.Native.String.{String}
use upzp_game_process.Prelude.{
  ℕ, ◌+◌, ◌-◌, ◌*◌, true, false, not, Option, none, some, List, [], ◌∷◌, ◌==◌, ltb,
}
use upzp_game_process.Prelude.Int.{pos}
use upzp_game_process.Doubles.{Doubles}
use upzp_game_process.Datagram.{Crc, Datagram}
use upzp_game_process.Wire.{Wire, InputTable, FGame, FClient, f_car}

abbrev pub sum_bytes : List ℕ → ℕ
sum_bytes [] = 0
sum_bytes (b ∷ bs) = b + sum_bytes bs

abbrev pub sum_crc : Crc
sum_crc = record { crc16 = sum_bytes; crc32 = sum_bytes }

abbrev pub whole_numbers : Doubles ℕ ℕ
whole_numbers = record {
  literal = λ n digits. n;
  minus_one = 0;
  pi = 3;
  add = λ a b. a + b;
  sub = λ a b. a - b;
  mul = λ a b. a * b;
  div = λ a b. a;
  cos = λ a. 1;
  sin = λ a. 0;
  sqrt = λ a. a;
  lt = ltb;
  ne = λ a b. not (a == b);
  cos_float = λ a. 1;
  sin_float = λ a. 0;
  float_zero = 0;
  to_int = pos;
}

-- What uninitialised memory happens to hold.
abbrev pub memory : Datagram
memory = record {
  version = 7;
  payload_length = 9;
  payload_checksum = 11;
  payload_checksum_included = true;
  payload = [];
}

-- An input with a payload of two bytes and a payload checksum.
abbrev pub input_frame : Datagram
input_frame = record {
  version = 101;
  payload_length = 2;
  payload_checksum = 0;
  payload_checksum_included = true;
  payload = 4 ∷ 1 ∷ [];
}

-- The two bytes of an input are its sequence number and the player.
abbrev read_input : List ℕ → Option (InputTable ℕ)
read_input (sequence ∷ (id ∷ rest)) =
    some (record { sequence = sequence; id = id; disconnect = false; direction = 0; move = true })
read_input _ = none

abbrev pub one_client : FClient
one_client = record {
  name = some "Anna";
  id = 1;
  ip_address = some "10.0.0.1";
  port = pos 8850;
  vehicle = some f_car;
}

abbrev pub two_teams : FGame
two_teams = record {
  id = pos 5;
  teams = some (record { clients = some (one_client ∷ []) } ∷ record { clients = some [] } ∷ []);
}

abbrev pub toy_wire : Wire ℕ ℕ
toy_wire = record {
  get_input = read_input;
  get_game = λ bytes. some two_teams;
  finish_status = λ table. 1 ∷ 2 ∷ 3 ∷ [];
  finish_game_id = λ table. 1 ∷ [];
  finish_game_ended = λ table. 1 ∷ [];
}

-- Every text is an address.
abbrev pub any_address : String → Option String
any_address text = some text
