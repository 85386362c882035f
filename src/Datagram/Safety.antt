-- ===== src/Datagram/Safety.antt =====
-- `Load` on any buffer, well formed or not.
use upzp_game_process.Prelude.{
  ℕ, ◌+◌, ◌%◌, ◌^◌, ◌≤◌, ◌<◌, ◌≡◌, ◌≢◌, refl, true, if◌then◌else◌, List, length, take, drop, leb,
  arith, byte_at, u16_at, u32_at, length-take, length-drop,
}
use upzp_game_process.Datagram.{
  Crc, Datagram, loaded, fault, begin_sequence, header_size, header_checksum_correct, load,
  load_payload,
}

-- The size of the header that the top bit of the fourth byte announces.
abbrev pub announced_header : List ℕ → ℕ
announced_header buffer = header_size (leb 128 (byte_at buffer 3))

-- A buffer whose header `Load` accepts.
pub record HasHeader (crc : Crc) (buffer : List ℕ) (size : ℕ) : Type 0 where
  pub long_enough : announced_header buffer ≤ size
  pub begins : u16_at buffer 0 ≡ begin_sequence
  pub checked : header_checksum_correct crc buffer (announced_header buffer) ≡ true

-- `Load` accepts only a buffer with a correct header.
pub load-HasHeader :
    (crc : Crc) (d : Datagram) (buffer : List ℕ) (size : ℕ)
    → (load crc d buffer size).1 ≡ loaded
    → HasHeader crc buffer size
unfolding load load_payload
load-HasHeader crc d buffer size h = ground arith

-- The header fields that `Load` stores.
abbrev pub stored : Datagram → List ℕ → Datagram
stored d buffer = record d {
  version = u16_at buffer 2 % 256;
  payload_length = u32_at buffer 4;
  payload_checksum = if leb 128 (byte_at buffer 3) then u32_at buffer 8 else d.payload_checksum;
  payload_checksum_included = leb 128 (byte_at buffer 3);
}

-- Behind a correct header only the payload is left to check.
pub load-HasHeader_eq :
    (crc : Crc) (d : Datagram) (buffer : List ℕ) (size : ℕ)
    → HasHeader crc buffer size
    → load crc d buffer size ≡ load_payload (stored d buffer) buffer size (announced_header buffer)
unfolding load
load-HasHeader_eq crc d buffer size h = ground arith

load_payload_loaded :
    (d : Datagram) (buffer : List ℕ) (size header : ℕ)
    → (load_payload d buffer size header).1 ≡ loaded
    → let new = (load_payload d buffer size header).0 in
      (header + d.payload_length ≤ length buffer)
      × (new.payload ≡ take d.payload_length (drop header buffer))
      × (new.payload_length ≡ length new.payload)
unfolding load_payload
load_payload_loaded d buffer size header h =
    ground (arith, length-take d.payload_length (drop header buffer), length-drop header buffer)

-- What `Load` accepts lies in the buffer: the payload is the announced number of bytes behind the
-- header, and its length field is its length.
pub load_loaded :
    (crc : Crc) (d : Datagram) (buffer : List ℕ) (size : ℕ)
    → (load crc d buffer size).1 ≡ loaded
    → let new = (load crc d buffer size).0 in
      (announced_header buffer + u32_at buffer 4 ≤ length buffer)
      × (new.payload ≡ take (u32_at buffer 4) (drop (announced_header buffer) buffer))
      × (new.payload_length ≡ length new.payload)
load_loaded crc d buffer size h =
    let e = load-HasHeader_eq crc d buffer size (load-HasHeader crc d buffer size h) in
    rw e (load_payload_loaded (stored d buffer) buffer size (announced_header buffer) (rw e at h))

-- Where the length field cannot wrap the 32-bit sum and the buffer has the given size, `Load` does
-- not read behind the buffer.
pub load-ne-fault :
    (crc : Crc) (d : Datagram) (buffer : List ℕ) (size : ℕ)
    → size ≤ length buffer
    → u32_at buffer 4 + announced_header buffer < 2 ^ 32
    → (load crc d buffer size).1 ≢ fault
unfolding load load_payload
load-ne-fault crc d buffer size h small e = ground arith

-- The overflow test adds in 32 bits: in a buffer of less than 2 ^ 32 bytes, a correct header whose
-- length field wraps the sum to at most the given size passes the test, and the copy runs past the
-- end of the buffer.
pub load_overruns :
    (crc : Crc) (d : Datagram) (buffer : List ℕ) (size : ℕ)
    → HasHeader crc buffer size
    → 2 ^ 32 ≤ u32_at buffer 4 + announced_header buffer
    → (u32_at buffer 4 + announced_header buffer) % 2 ^ 32 ≤ size
    → length buffer < 2 ^ 32
    → (load crc d buffer size).1 ≡ fault
unfolding load load_payload
load_overruns crc d buffer size h wraps passes short = ground arith

load_payload_memory :
    (d e : Datagram) (buffer : List ℕ) (size header : ℕ)
    → e.payload_length ≡ d.payload_length
    → e.version ≡ d.version
    → (load_payload d buffer size header).1 ≡ loaded
    → ((load_payload e buffer size header).1 ≡ loaded)
      × ((load_payload e buffer size header).0.version
          ≡ (load_payload d buffer size header).0.version)
      × ((load_payload e buffer size header).0.payload
          ≡ (load_payload d buffer size header).0.payload)
unfolding load_payload
load_payload_memory d e buffer size header same_length same_version h = ground arith

-- What `Load` accepts, and what it then holds, does not depend on what the object held before.
pub load_loaded_memory :
    (crc : Crc) (d e : Datagram) (buffer : List ℕ) (size : ℕ)
    → (load crc d buffer size).1 ≡ loaded
    → ((load crc e buffer size).1 ≡ loaded)
      × ((load crc e buffer size).0.version ≡ (load crc d buffer size).0.version)
      × ((load crc e buffer size).0.payload ≡ (load crc d buffer size).0.payload)
load_loaded_memory crc d e buffer size h =
    let header = load-HasHeader crc d buffer size h in
    let at_d = load-HasHeader_eq crc d buffer size header in
    let at_e = load-HasHeader_eq crc e buffer size header in
    rw (at_e, at_d)
      (load_payload_memory (stored d buffer) (stored e buffer) buffer size (announced_header buffer)
        refl refl (rw at_d at h))
