-- ===== src/Datagram.antt =====
-- datagram/inc/datagram.h and datagram/datagram.cpp: the frame of every message.
-- The two CRC functions come from a third-party header and are the parameter `Crc`.
pub mod RoundTrip
pub mod Safety
use upzp_game_process.Prelude.{
  ℕ, ◌+◌, ◌-◌, ◌/◌, ◌%◌, ◌^◌, Bool, true, false, not, List, [], ◌∷◌, ◌++◌, length, take, drop, ltb,
  leb, ◌==◌, if◌then◌else◌, byte_at, u16_at, u32_at, le16, le32,
}

-- `CRC::Calculate` with `CRC_16_ARC` and with `CRC_32`, on a range of bytes.
pub record Crc : Type 0 where
  pub crc16 : List ℕ → ℕ
  pub crc32 : List ℕ → ℕ

pub record Datagram : Type 0 where
  pub version : ℕ
  pub payload_length : ℕ
  pub payload_checksum : ℕ
  pub payload_checksum_included : Bool
  pub payload : List ℕ

-- 0xABDA, stored with its low byte first.
abbrev pub begin_sequence : ℕ
begin_sequence = 0xABDA

abbrev pub minimal_length : ℕ
minimal_length = 12

-- The `std::runtime_error`s of `Load`.
pub data LoadError : Type 0 where
  too_short bad_begin_sequence too_short_for_checksum bad_header_checksum payload_overflow :
      LoadError

-- `fault` is undefined behaviour: the payload range ends behind the buffer.
pub data LoadResult : Type 0 where
  loaded : LoadResult
  throws : LoadError → LoadResult
  fault : LoadResult

abbrev pub header_size : Bool → ℕ
header_size included = if included then 16 else 12

-- The sum is an addition of `uint32_t`, so it wraps.
abbrev pub payload_end : ℕ → ℕ → ℕ
payload_end payload_length header_length = (payload_length + header_length) % 2 ^ 32

-- The end of `Load`: the overflow test, and the copy of the payload.
unfoldable pub load_payload : Datagram → List ℕ → ℕ → ℕ → Datagram × LoadResult
load_payload d buffer size header_length =
    if ltb size (payload_end d.payload_length header_length)
    then (d, throws payload_overflow)
    else if ltb (length buffer) (header_length + d.payload_length)
    then (d, fault)
    else (record d { payload = take d.payload_length (drop header_length buffer) }, loaded)

module _ (crc : Crc) where
  open crc use {crc16, crc32}

  -- The header checksum stands in the last two bytes of the header and covers the bytes before.
  abbrev pub header_checksum_correct : List ℕ → ℕ → Bool
  header_checksum_correct buffer header_length =
      u16_at buffer (header_length - 2) == crc16 (take (header_length - 2) buffer) % 2 ^ 16

  -- The middle of `Load`, with the fields of the fixed header already stored.
  unfoldable pub load_checked : Datagram → List ℕ → ℕ → ℕ → Datagram × LoadResult
  load_checked d buffer size header_length =
      if header_checksum_correct buffer header_length
      then load_payload d buffer size header_length
      else (d, throws bad_header_checksum)

  -- `Load(buffer, size)`, where `buffer` is what can be read from the pointer on and holds at least
  -- `size` bytes. The fields that were stored before an exception stay stored.
  unfoldable pub load : Datagram → List ℕ → ℕ → Datagram × LoadResult
  unfolding load_checked
  load d buffer size =
      if ltb size minimal_length
      then (d, throws too_short)
      else if not (u16_at buffer 0 == begin_sequence)
      then (d, throws bad_begin_sequence)
      else (let included = leb 128 (byte_at buffer 3) in
          let fixed = record d {
            version = u16_at buffer 2 % 256;
            payload_checksum_included = included;
            payload_length = u32_at buffer 4;
          } in
          if included
          then (if ltb size (minimal_length + 4)
              then (fixed, throws too_short_for_checksum)
              else load_checked (record fixed { payload_checksum = u32_at buffer 8 }) buffer size
                  16)
          else load_checked fixed buffer size 12)

  unfoldable pub payload_correctness : Datagram → Bool
  payload_correctness d =
      if not (d.payload_length == length d.payload)
      then false
      else if d.payload_checksum_included
      then crc32 d.payload % 2 ^ 32 == d.payload_checksum
      else true

  -- `& 0x7F00`, `>> 8` and `|= 0x80` on the upper byte of the version.
  abbrev pub version_upper : Datagram → ℕ
  version_upper d = d.version / 256 % 128 + (if d.payload_checksum_included then 128 else 0)

  -- The bytes of the header in front of its checksum. The buffer is made of zeros, and two bytes
  -- before the checksum are never written.
  abbrev pub checked_header : Datagram → List ℕ
  checked_header d =
      0xDA
      ∷ 0xAB
      ∷ (d.version % 256)
      ∷ version_upper d
      ∷ (le32 (length d.payload)
          ++ ((if d.payload_checksum_included then le32 (crc32 d.payload) else []) ++ (0 ∷ 0 ∷ [])))

  unfoldable pub get : Datagram → List ℕ
  get d = let head = checked_header d in head ++ (le16 (crc16 head) ++ d.payload)

-- `& 0x7FFF`
unfoldable pub set_version : ℕ → Datagram → Datagram
set_version version d = record d { version = version % 2 ^ 15 }

unfoldable pub set_payload_checksum : Bool → Datagram → Datagram
set_payload_checksum include_payload_checksum d = record d {
  payload_checksum_included = include_payload_checksum;
}

-- A payload longer than a `uint32_t` can count is ignored.
unfoldable pub set_payload : List ℕ → Datagram → Datagram
set_payload buffer d =
    if leb (length buffer) (2 ^ 32 - 1)
    then record d { payload = buffer; payload_length = length buffer }
    else d
