-- ===== src/Tests/Passes.antt =====
-- Bytes with a whole datagram and the beginning of another one.
use upzp_game_process.Prelude.{
  ℕ, suc, ◌≡◌, inr, false, some, List, [], ◌∷◌, ◌++◌, length, take, arith,
}
use upzp_game_process.Datagram.{get}
use upzp_game_process.DatagramStream.{begin_seq, DatagramStream, add_data}
use upzp_game_process.DatagramStream.Invariant.{stream}
use upzp_game_process.DatagramStream.Reference.{reference, frames}
use upzp_game_process.DatagramStream.Refinement.{Gives, add_data-Gives}
use upzp_game_process.GameLogic.{new_game_logic}
use upzp_game_process.MainProcessComm.{MainProcessComm, handle_receive}
use upzp_game_process.MainProcessComm.Conversation.{peers_of, take_datagrams, handle_receive-frames}
use upzp_game_process.Tests.Toys.{
  sum_crc, memory, input_frame, toy_wire, whole_numbers, any_address,
}

abbrev fresh : DatagramStream
fresh = stream begin_seq (7 ∷ []) 12 0 memory

-- A roster, the first three bytes of another frame behind it, and a byte of noise in front.
abbrev bytes : List ℕ
bytes = 0xDA ∷ get sum_crc (record input_frame { version = 10 }) ++ take 3 (get sum_crc input_frame)

add_data-Gives_example :
    Gives sum_crc memory
      (reference sum_crc memory ((7 ∷ []) ++ bytes))
      (add_data sum_crc bytes fresh)
add_data-Gives_example = add_data-Gives sum_crc bytes fresh tt (inr (omega arith))

abbrev waiting : MainProcessComm ℕ ℕ
waiting = record {
  stream = fresh;
  peers = record {
    comm = some (record { clients = []; locked = false; transmit_buffer = [] });
    logic = some (new_game_logic 0);
  };
}

handle_receive-frames_example :
    let all = (7 ∷ []) ++ bytes in
    let (ds, rest) = frames sum_crc (suc (length all)) memory all in
    peers_of (handle_receive whole_numbers any_address sum_crc toy_wire bytes waiting)
    ≡ take_datagrams whole_numbers any_address sum_crc toy_wire ds rest waiting.peers
handle_receive-frames_example =
    handle_receive-frames whole_numbers any_address sum_crc toy_wire bytes waiting tt
