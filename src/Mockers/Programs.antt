-- ===== src/Mockers/Programs.antt =====
-- main.cpp of main_process_communication_mocker and of client_communication_mocker, beside
-- UPZP-GameProcess: the two programs around the mocked messages. Sockets, the timer and the console
-- are left out.
use Prim.Native.String.{String}
use upzp_game_process.Prelude.{ℕ, ◌+◌, ◌%◌, ◌^◌, true, List, [], ◌∷◌, ◌++◌}
use upzp_game_process.Datagram.{Crc, Datagram, get}
use upzp_game_process.ClientUdp.{Endpoint}
use upzp_game_process.Mockers.{Statics, MockerWire, mock_player_list_datagram, mock_input_datagram}

-- `'t', 'e', 's', 't'`
abbrev pub test_bytes : List ℕ
test_bytes = 116 ∷ 101 ∷ 115 ∷ 116 ∷ []

abbrev pub behind_bytes : List ℕ
behind_bytes = test_bytes ++ (0xAB ∷ [])

-- Where the client's mocker sends its inputs.
abbrev pub server : Endpoint
server = record { address = "127.0.0.1"; port = 8850 }

module _ {R F : Type 0} (crc : Crc) (wire : MockerWire R F) (memory : Datagram) where
  -- One round of the loop of the main process's mocker: what it writes to a sub-process that has
  -- connected, and the static variables behind the call.
  unfoldable pub serve_sub_process : (ℕ → String) → Statics → List ℕ × Statics
  serve_sub_process to_string statics =
      let (d, statics') = mock_player_list_datagram to_string wire memory 5 5 statics in
      (test_bytes ++ (get crc d ++ behind_bytes), statics')

  -- The handler of the client's timer, with the literal 3.14 as a `float`: the static variable `seq`
  -- behind it, and what it sends.
  unfoldable pub transmit : F → ℕ → ℕ × Endpoint × List ℕ
  transmit direction seq =
      let next = (seq + 1) % 2 ^ 64 in
      (next, server, get crc (mock_input_datagram wire memory next 1 true direction))
