-- ===== src/Tests/Streams.antt =====
-- Streams of bytes.
use upzp_game_process.Prelude.{
  ℕ, ◌<◌, ◌≡◌, ◌↔◌, ◌⊎◌, inr, refl, true, false, List, [], ◌∷◌, ◌++◌, length, drop, arith,
}
use upzp_game_process.Datagram.{get}
use upzp_game_process.DatagramStream.{
  begin_seq, DatagramStream, fault, returned, add_data, flush_data, flush_loop, round,
  begin_seq_step, find_begin_sequence, find_from, header_1_step, header_2_step, payload_step,
}
use upzp_game_process.DatagramStream.Invariant.{IsValid, IsReady, stream}
use upzp_game_process.DatagramStream.Termination.{flush_data_returns, flush_data-fault_iff}
use upzp_game_process.DatagramStream.Chunks.{add_data-append}
use upzp_game_process.DatagramStream.Framing.{delivered}
use upzp_game_process.DatagramStream.Pieces.{add_data-get_pieces}
use upzp_game_process.Tests.Toys.{sum_crc, memory, input_frame}

abbrev fresh : DatagramStream
fresh = stream begin_seq [] 12 0 memory

-- The frame cut behind its third byte, with a byte of noise in front.
abbrev first_piece : List ℕ
first_piece = 1 ∷ 0xDA ∷ 0xAB ∷ 101 ∷ []

abbrev second_piece : List ℕ
second_piece = drop 3 (get sum_crc input_frame) ++ (8 ∷ [])

add_data-get_pieces_example :
    (t : DatagramStream) × (add_data sum_crc first_piece fresh ≡ returned false t)
    × (add_data sum_crc second_piece t
        ≡ returned true (delivered sum_crc input_frame (8 ∷ []) memory))
    × IsValid sum_crc t
    × IsReady t
unfolding get
add_data-get_pieces_example =
    add_data-get_pieces sum_crc (1 ∷ []) input_frame (8 ∷ []) first_piece second_piece 12 0 memory
      tt (omega arith) refl (omega arith) (omega arith)

-- What is left of three bytes that end with the first byte of a begin sequence.
abbrev waiting : DatagramStream
waiting = stream begin_seq (0xDA ∷ []) 12 0 memory

add_data-append_example :
    add_data sum_crc ((1 ∷ 2 ∷ 0xDA ∷ []) ++ (0xAB ∷ 5 ∷ [])) fresh
    ≡ add_data sum_crc (0xAB ∷ 5 ∷ []) waiting
unfolding add_data flush_data flush_loop round begin_seq_step find_begin_sequence find_from
    header_1_step header_2_step payload_step
add_data-append_example =
    add_data-append sum_crc (1 ∷ 2 ∷ 0xDA ∷ []) (0xAB ∷ 5 ∷ []) fresh waiting tt (inr (omega arith))
      refl

flush_data_returns_example :
    ((t : DatagramStream) × (flush_data sum_crc waiting ≡ returned true t)
      × IsValid sum_crc t
      × (length t.buffer < 1))
    ⊎ ((t : DatagramStream) × (flush_data sum_crc waiting ≡ returned false t)
        × IsValid sum_crc t
        × IsReady t)
flush_data_returns_example = flush_data_returns sum_crc waiting tt (inr (omega arith))

flush_data-fault_iff_example :
    (flush_data sum_crc fresh ≡ fault) ↔ ((fresh.state ≡ begin_seq) × (fresh.buffer ≡ []))
flush_data-fault_iff_example = flush_data-fault_iff sum_crc fresh tt

abbrev plain_bytes : List ℕ
plain_bytes = 0xDA ∷ 0xAB ∷ 101 ∷ 0 ∷ 2 ∷ 0 ∷ 0 ∷ 0 ∷ 0 ∷ 0 ∷ 236 ∷ 1 ∷ 4 ∷ 1 ∷ []
