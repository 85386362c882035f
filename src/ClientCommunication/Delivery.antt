-- ===== src/ClientCommunication/Delivery.antt =====
-- What the transmit handler sends.
use upzp_game_process.Prelude.{
  ℕ, ◌+◌, ◌^◌, ◌<◌, ◌≡◌, ◌%◌, ap, Bool, refl, true, false, some, List, length, map, arith,
}
use upzp_game_process.Datagram.{
  Crc, Datagram, loaded, load, get, payload_correctness, set_payload, set_version, header_size,
  set_payload_checksum,
}
use upzp_game_process.Datagram.RoundTrip.{load-get_exact}
use upzp_game_process.GameLogic.{GameLogic}
use upzp_game_process.Wire.{Wire}
use upzp_game_process.ClientCommunication.{
  ClientCommunication, done, handle_transmit, status_datagram, status_bytes, game_status_ver,
  get_game_status_into_transmit_buffer,
}

frame_fits : (n : ℕ) (b : Bool) → n + 16 < 2 ^ 32 → header_size b + n < 2 ^ 32
frame_fits n true h = omega arith
frame_fits n false h = omega arith

module _ {R F : Type 0} (crc : Crc) (wire : Wire R F) (memory : Datagram) (l : GameLogic R F) where
  abbrev pub frame : List ℕ
  frame = get crc (status_datagram crc wire memory l)

  -- The fields of the datagram that holds a status of less than 2 ^ 32 bytes.
  pub status_datagram_fields :
      length (status_bytes crc wire memory l) < 2 ^ 32
      → let d = status_datagram crc wire memory l in
        (d.version ≡ game_status_ver)
        × (d.payload ≡ status_bytes crc wire memory l)
        × (d.payload_checksum_included ≡ true)
  unfolding status_datagram set_payload set_version set_payload_checksum
  status_datagram_fields small = ground arith

  -- What `Load` makes of the frame of such a status.
  pub status_frame_loads :
      (old : Datagram)
      → length (status_bytes crc wire memory l) + 16 < 2 ^ 32
      → let result = load crc old frame (length frame) in
        (result.1 ≡ loaded)
        × (result.0.version ≡ game_status_ver)
        × (result.0.payload ≡ status_bytes crc wire memory l)
        × (payload_correctness crc result.0 ≡ true)
  unfolding payload_correctness
  status_frame_loads old small =
      let d : Datagram = status_datagram crc wire memory l in
      let (version, bytes, included) = status_datagram_fields (omega arith) in
      let size : length d.payload + 16 < 2 ^ 32 = omega (arith, ap length bytes) in
      let whole =
        load-get_exact crc d old (frame_fits (length d.payload) d.payload_checksum_included size) in
      rw whole (refl, ap (λ (v : ℕ). v % 256) version, bytes, ground arith)

  -- With a game logic, the mutex free and a status whose frame is shorter than 2 ^ 32 bytes, the
  -- transmit handler sends every client the same frame and starts the timer once. Whoever loads
  -- the frame finds version 100 and the serialized status of the game, with a correct checksum.
  pub handle_transmit_delivers :
      (cc : ClientCommunication F) (old : Datagram)
      → cc.locked ≡ false
      → length (status_bytes crc wire memory l) + 16 < 2 ^ 32
      → let result = load crc old frame (length frame) in
        (handle_transmit crc wire memory (some l) cc
          ≡ done (
            record cc { transmit_buffer = frame },
            map (λ c. (c.remote_endpoint, frame)) cc.clients,
            1,
          ))
        × (result.1 ≡ loaded)
        × (result.0.version ≡ game_status_ver)
        × (result.0.payload ≡ status_bytes crc wire memory l)
        × (payload_correctness crc result.0 ≡ true)
  unfolding handle_transmit get_game_status_into_transmit_buffer
  handle_transmit_delivers cc old free small =
      let (whole, version, bytes, correct) = status_frame_loads old small in
      (rw free refl, whole, version, bytes, correct)
