-- ===== src/DatagramStream.antt =====
-- datagram/inc/datagram_stream.h and datagram/datagram_stream.cpp: datagrams out of a byte stream.
pub mod Invariant
pub mod Termination
pub mod BeginSequence
pub mod Extension
pub mod Rounds
pub mod Chunks
pub mod Framing
pub mod Pieces
pub mod Reference
pub mod Places
pub mod Refinement
use mathlib.Core.Bool.{◌||◌}
use upzp_game_process.Prelude.{
  ℕ, zero, suc, ◌+◌, ◌-◌, Bool, true, false, ◌&&◌, not, Option, none, some, List, [], ◌∷◌, ◌++◌,
  length, drop, ltb, leb, ◌==◌, if◌then◌else◌, byte_at, u32_at,
}
use upzp_game_process.Datagram.{
  Crc, Datagram, LoadResult, loaded, throws, header_checksum_correct, load,
}

pub data State : Type 0 where
  begin_seq header_1 header_2 payload : State

-- Comparison of the state with a constant.
abbrev pub same : State → State → Bool
same begin_seq begin_seq = true
same header_1 header_1 = true
same header_2 header_2 = true
same payload payload = true
same _ _ = false

-- `datagram` is the private base class.
pub record DatagramStream : Type 0 where
  pub state : State
  pub buffer : List ℕ
  pub header_length : ℕ
  pub payload_length : ℕ
  pub datagram : Datagram

-- The default constructor leaves the fields of the base class as they are in memory.
abbrev pub init : Datagram → DatagramStream
init memory = record {
  state = begin_seq;
  buffer = [];
  header_length = 12;
  payload_length = 0;
  datagram = memory;
}

-- `out_of_bounds` is undefined behaviour: a read in an empty buffer.
pub data Search : Type 0 where
  out_of_bounds not_found : Search
  found : ℕ → Search

-- The loop from index `i` on, where `a` is the byte at `i`.
unfoldable pub find_from : ℕ → ℕ → List ℕ → Search
find_from i a [] = not_found
find_from i a (b ∷ bs) =
    let rest = find_from (i + 1) b bs in if a == 0xDA && b == 0xAB then found i else rest

-- On an empty buffer `buffer_.size() - 1` wraps to the largest `size_t`, and the loop reads.
unfoldable pub find_begin_sequence : List ℕ → Search
find_begin_sequence [] = out_of_bounds
find_begin_sequence (a ∷ bs) = find_from 0 a bs

-- How a round of the loop of `FlushData` ends, and how the loop ends. As the end of the loop,
-- `again` says that the fuel ran out.
pub data Progress : Type 0 where
  fault : Progress
  returned : Bool → DatagramStream → Progress
  again : DatagramStream → Progress

-- Keeps all from the begin sequence on, or else the last byte.
abbrev pub cut_to : DatagramStream → Search → Option DatagramStream
cut_to s out_of_bounds = none
cut_to s not_found = some (record s { buffer = drop (length s.buffer - 1) s.buffer })
cut_to s (found pos) = some (record s { buffer = drop pos s.buffer; state = header_1 })

unfoldable pub begin_seq_step : DatagramStream → Option DatagramStream
begin_seq_step s =
    if same s.state begin_seq then cut_to s (find_begin_sequence s.buffer) else some s

unfoldable pub header_1_step : DatagramStream → DatagramStream
header_1_step s =
    if same s.state header_1 && leb 12 (length s.buffer)
    then record s {
      header_length = if leb 128 (byte_at s.buffer 3) then 16 else 12;
      state = header_2;
    }
    else s

module _ (crc : Crc) where
  unfoldable pub header_correct : List ℕ → ℕ → Bool
  header_correct buffer header_length =
      if ltb (length buffer) header_length
      then false
      else if not (byte_at buffer 0 == 0xDA) || not (byte_at buffer 1 == 0xAB)
      then false
      else header_checksum_correct crc buffer header_length

  -- With the new value of `repeat`.
  unfoldable pub header_2_step : DatagramStream → DatagramStream × Bool
  header_2_step s =
      if same s.state header_2 && leb s.header_length (length s.buffer)
      then (if header_correct s.buffer s.header_length
          then (record s { payload_length = u32_at s.buffer 4; state = payload }, false)
          else (record s { buffer = drop 1 s.buffer; state = begin_seq }, true))
      else (s, false)

  -- The `try` block and its handler.
  abbrev pub after_load : DatagramStream → Datagram × LoadResult → Progress
  after_load s (d, loaded) = returned true (record s {
    datagram = d;
    buffer = drop (s.header_length + s.payload_length) s.buffer;
    state = begin_seq;
  })
  after_load s (d, throws e) =
      again (record s { datagram = d; buffer = drop 1 s.buffer; state = begin_seq })
  after_load s (d, LoadResult.fault) = fault

  unfoldable pub payload_step : DatagramStream × Bool → Progress
  payload_step (s, repeat) =
      if same s.state payload && leb (s.header_length + s.payload_length) (length s.buffer)
      then after_load s (load crc s.datagram s.buffer (s.header_length + s.payload_length))
      else if repeat
      then again s
      else returned false s

  -- One round of the loop of `FlushData`.
  abbrev pub later_steps : DatagramStream → Progress
  later_steps s = payload_step (header_2_step (header_1_step s))

  unfoldable pub round : DatagramStream → Progress
  round s = elim (begin_seq_step s) [ none ↦ fault | some s' ↦ later_steps s' ]

  unfoldable pub flush_loop : ℕ → DatagramStream → Progress
  flush_loop zero s = again s
  flush_loop (suc fuel) s = elim (round s) [
    | fault ↦ fault
    | returned b s' ↦ returned b s'
    | again s' ↦ flush_loop fuel s'
  ]

  -- Each further round has a shorter buffer.
  unfoldable pub flush_data : DatagramStream → Progress
  flush_data s = flush_loop (suc (length s.buffer)) s

  unfoldable pub add_data : List ℕ → DatagramStream → Progress
  add_data bytes s = flush_data (record s { buffer = s.buffer ++ bytes })
