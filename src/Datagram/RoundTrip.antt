-- ===== src/Datagram/RoundTrip.antt =====
-- What `Load` makes of the bytes that `Get` wrote.
use upzp_game_process.Prelude.{
  ℕ, ◌+◌, ◌%◌, ◌^◌, ◌≤◌, ◌<◌, ◌≡◌, ◌↔◌, refl, Bool, true, false, List, [], append-nil, ◌++◌, length,
  if◌then◌else◌, arith, le16, length-append, take-length-append, drop-length-append,
}
use upzp_game_process.Datagram.{
  Crc, Datagram, loaded, load, load_checked, load_payload, get, header_size, checked_header,
  payload_correctness, set_version,
}

-- What a receiver holds after a datagram `d`, if it held `d₀` before: the lower byte of the version,
-- the length and the bytes of the payload, and the checksum if `d` includes it.
abbrev pub received : Crc → Datagram → Datagram → Datagram
received crc old d = record {
  version = d.version % 256;
  payload_length = length d.payload;
  payload_checksum =
      if d.payload_checksum_included then crc.crc32 d.payload % 2 ^ 32 else old.payload_checksum;
  payload_checksum_included = d.payload_checksum_included;
  payload = d.payload;
}

load_payload-get :
    (d : Datagram) (head payload rest : List ℕ) (size : ℕ)
    → d.payload_length ≡ length payload
    → length payload + length head < 2 ^ 32
    → length head + length payload ≤ size
    → load_payload d (head ++ (payload ++ rest)) size (length head)
      ≡ (record d { payload = payload }, loaded)
unfolding load_payload
load_payload-get d head payload rest size n small fits =
    rw (n, drop-length-append head (payload ++ rest), take-length-append payload rest)
      (ground (arith, length-append head (payload ++ rest), length-append payload rest))

-- The three parts of a frame, with the fields of the datagram as variables.
abbrev pub fields : ℕ → ℕ → ℕ → List ℕ → Bool → Datagram
fields version n checksum payload included = record {
  version = version;
  payload_length = n;
  payload_checksum = checksum;
  payload_checksum_included = included;
  payload = payload;
}

length-get-fields :
    (crc : Crc) (v n c : ℕ) (p : List ℕ) (b : Bool)
    → length (get crc (fields v n c p b)) ≡ header_size b + length p
unfolding get
length-get-fields crc v n c p true = omega arith
length-get-fields crc v n c p false = omega arith

load-get-fields :
    (crc : Crc) (v n c : ℕ) (p : List ℕ) (b : Bool) (old : Datagram) (rest : List ℕ) (size : ℕ)
    → header_size b + length p < 2 ^ 32
    → header_size b + length p ≤ size
    → load crc old (get crc (fields v n c p b) ++ rest) size
      ≡ (received crc old (fields v n c p b), loaded)
unfolding get load load_checked
load-get-fields crc v n c p true old rest size small fits =
    let d : Datagram = fields v n c p true in
    ground (
      arith,
      load_payload-get (record (received crc old d) { payload = old.payload })
          (checked_header crc d ++ le16 (crc.crc16 (checked_header crc d))) p rest size refl,
    )
load-get-fields crc v n c p false old rest size small fits =
    let d : Datagram = fields v n c p false in
    ground (
      arith,
      load_payload-get (record (received crc old d) { payload = old.payload })
          (checked_header crc d ++ le16 (crc.crc16 (checked_header crc d))) p rest size refl,
    )

-- The header takes 12 bytes, or 16 with a payload checksum.
pub length-get :
    (crc : Crc) (d : Datagram)
    → length (get crc d) ≡ header_size d.payload_checksum_included + length d.payload
length-get crc d =
    length-get-fields crc d.version d.payload_length d.payload_checksum d.payload
      d.payload_checksum_included

-- `Load` accepts the bytes that `Get` wrote for a datagram whose frame is shorter than 2 ^ 32
-- bytes and not longer than the given size, whatever follows them in the buffer and whatever the
-- receiving object held. It then holds the payload, its length, the checksum if one is included,
-- and the version modulo 256.
pub load-get :
    (crc : Crc) (d old : Datagram) (rest : List ℕ) (size : ℕ)
    → header_size d.payload_checksum_included + length d.payload < 2 ^ 32
    → header_size d.payload_checksum_included + length d.payload ≤ size
    → load crc old (get crc d ++ rest) size ≡ (received crc old d, loaded)
load-get crc d old rest size =
    load-get-fields crc d.version d.payload_length d.payload_checksum d.payload
      d.payload_checksum_included old rest size

pub payload_correctness-received :
    (crc : Crc) (d old : Datagram)
    → header_size d.payload_checksum_included + length d.payload < 2 ^ 32
    → payload_correctness crc (received crc old d) ≡ true
unfolding payload_correctness
payload_correctness-received crc d old small = ground arith

-- The receiver of a frame that `Get` wrote (shorter than 2 ^ 32 bytes, and all of it in the
-- buffer) finds the payload correct.
pub payload_correctness-load-get :
    (crc : Crc) (d old : Datagram) (rest : List ℕ) (size : ℕ)
    → header_size d.payload_checksum_included + length d.payload < 2 ^ 32
    → header_size d.payload_checksum_included + length d.payload ≤ size
    → payload_correctness crc (load crc old (get crc d ++ rest) size).0 ≡ true
unfolding payload_correctness
payload_correctness-load-get crc d old rest size small fits =
    rw (load-get crc d old rest size small fits) (payload_correctness-received crc d old small)

-- A frame alone in its buffer.
pub load-get_exact :
    (crc : Crc) (d old : Datagram)
    → header_size d.payload_checksum_included + length d.payload < 2 ^ 32
    → load crc old (get crc d) (length (get crc d)) ≡ (received crc old d, loaded)
load-get_exact crc d old small =
    rw append-nil at
      (load-get crc d old [] (length (get crc d)) small (omega (arith, length-get crc d)))

-- `SetVersion` keeps 15 bits of a version and `Get` writes them, but `Load` reads 8: in a frame
-- shorter than 2 ^ 32 bytes a version of 15 bits survives the way to the receiver exactly when it
-- is below 256.
pub version-load-get_iff :
    (crc : Crc) (d old : Datagram) (v : ℕ)
    → v < 2 ^ 15
    → header_size d.payload_checksum_included + length d.payload < 2 ^ 32
    → let sent = set_version v d in
      ((load crc old (get crc sent) (length (get crc sent))).0.version ≡ v) ↔ (v < 256)
unfolding set_version
version-load-get_iff crc d old v hv small =
    rw (load-get_exact crc (set_version v d) old small) (omega arith, omega arith)
