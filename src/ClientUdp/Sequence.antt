-- ===== src/ClientUdp/Sequence.antt =====
-- Which inputs `DecodeDatagram` of client_communication/client_udp.cpp takes over.
use upzp_game_process.Prelude.{
  ℕ, ◌≤◌, refl, subst, ◌∙◌, [], ◌∷◌, inl, inr, Option-cases, ◌+◌, ◌%◌, ◌^◌, ◌<◌, ◌≡◌, ◌==◌, sym,
  Bool, if◌then◌else◌, true, false, Option, none, some, List, length, arith,
}
use upzp_game_process.Datagram.{Crc, Datagram, LoadResult, loaded, load, get, header_size}
use upzp_game_process.Datagram.Safety.{load_loaded_memory}
use upzp_game_process.Datagram.RoundTrip.{load-get_exact}
use upzp_game_process.Wire.{Wire, InputTable}
use upzp_game_process.ClientCommunication.{connected}
use upzp_game_process.ClientUdp.{
  Endpoint, ClientUdp, DecodeResult, decoded, rejects, take_input, take_message, after_load,
  decode_datagram, datagram_player_input_ver,
}

-- A newer state of a client: a greater sequence number, and the same client.
pub record IsNewer {F : Type 0} (old new : ClientUdp F) : Type 0 where
  pub grows : old.last_sequence < new.last_sequence
  pub same_client : new.client ≡ old.client
  pub same_id : new.input.id ≡ old.input.id

module _ {F : Type 0} where
  take_same :
      (table : Option (InputTable F)) (test : Bool) (c : ClientUdp F) {new : ClientUdp F}
      → (if test then take_message table c else decoded false c) ≡ decoded false new
      → new ≡ c
  unfolding take_input
  take_same none true c e = cc
  take_same (some t) true c e = ground arith
  take_same table false c e = cc

  -- A state of the same client that is no older.
  abbrev NoOlder : ClientUdp F → ClientUdp F → Type 0
  NoOlder old new = (old.last_sequence ≤ new.last_sequence) × (new.client ≡ old.client)

  again_at :
      (table : Option (InputTable F)) (test : Bool) (c later : ClientUdp F) {new : ClientUdp F}
      → (if test then take_message table c else decoded false c) ≡ decoded true new
      → NoOlder new later
      → (if test then take_message table later else decoded false later) ≡ decoded false later
  unfolding take_input
  again_at none true c later e k = cc
  again_at (some t) true c later e k = ground arith
  again_at table false c later e k = cc

module _ {R F : Type 0} (crc : Crc) (wire : Wire R F) where
  -- A datagram with the version of an input, in a frame shorter than 2 ^ 32 bytes, is decoded into
  -- the input that its payload holds.
  pub decode_datagram-get :
      (memory d : Datagram) (c : ClientUdp F)
      → d.version % 256 ≡ datagram_player_input_ver
      → header_size d.payload_checksum_included + length d.payload < 2 ^ 32
      → decode_datagram crc wire memory (get crc d) (length (get crc d)) c
        ≡ take_message (wire.get_input d.payload) c
  unfolding decode_datagram
  decode_datagram-get memory d c version small = rw (load-get_exact crc d memory small, version)

  after_load-IsNewer :
      (x : Datagram × LoadResult) (c : ClientUdp F) {new : ClientUdp F}
      → after_load crc wire x c ≡ decoded true new
      → IsNewer c new × (x.1 ≡ loaded)
  unfolding take_input
  after_load-IsNewer (d, loaded) c e = ground arith
  after_load-IsNewer (d, LoadResult.throws x) c e = cc
  after_load-IsNewer (d, LoadResult.fault) c e = cc

  -- An input that is taken over has a greater sequence number than the last one, and the client
  -- and its ID stay the same.
  pub decode_datagram-IsNewer :
      (memory : Datagram) (buffer : List ℕ) (size : ℕ) (c : ClientUdp F) {new : ClientUdp F}
      → decode_datagram crc wire memory buffer size c ≡ decoded true new
      → IsNewer c new
  unfolding decode_datagram
  decode_datagram-IsNewer memory buffer size c e =
      (after_load-IsNewer (load crc memory buffer size) c e).0

  after_load_same :
      (x : Datagram × LoadResult) (c : ClientUdp F) {new : ClientUdp F}
      → after_load crc wire x c ≡ decoded false new
      → new ≡ c
  after_load_same (d, loaded) c e =
      take_same (wire.get_input d.payload) (d.version == datagram_player_input_ver) c e
  after_load_same (d, LoadResult.throws x) c e = cc
  after_load_same (d, LoadResult.fault) c e = cc

  -- The answer false leaves the client as it was.
  pub decode_datagram_same :
      (memory : Datagram) (buffer : List ℕ) (size : ℕ) (c : ClientUdp F) {new : ClientUdp F}
      → decode_datagram crc wire memory buffer size c ≡ decoded false new
      → new ≡ c
  unfolding decode_datagram
  decode_datagram_same memory buffer size c e = after_load_same (load crc memory buffer size) c e

  after_load_again :
      (x y : Datagram × LoadResult) (c later : ClientUdp F) {new : ClientUdp F}
      → y.1 ≡ loaded
      → x.0.version ≡ y.0.version
      → x.0.payload ≡ y.0.payload
      → after_load crc wire x c ≡ decoded true new
      → NoOlder new later
      → after_load crc wire y later ≡ decoded false later
  unfolding take_input
  after_load_again (d, loaded) (f, r) c later er ev ep e k =
      rw (er, ← ev, ← ep)
        (again_at (wire.get_input d.payload) (d.version == datagram_player_input_ver) c later e k)
  after_load_again (d, LoadResult.throws x) y c later er ev ep e k = cc
  after_load_again (d, LoadResult.fault) y c later er ev ep e k = cc

  -- What the receive handler makes of the client, if nothing goes wrong; an exception leaves it as it
  -- was.
  abbrev heard : Endpoint → ClientUdp F → DecodeResult F → Option (ClientUdp F)
  heard remote c (decoded true d) = some (connected remote d)
  heard remote c (decoded false d) = some d
  heard remote c (rejects e) = some c
  heard remote c DecodeResult.fault = none

  -- The client after datagrams, each with its sender, with what the local datagram held before, and
  -- with its size.
  unfoldable pub hear_each :
      List (Endpoint × Datagram × List ℕ × ℕ) → ClientUdp F → Option (ClientUdp F)
  hear_each [] c = some c
  hear_each ((remote, memory, buffer, size) ∷ rest) c =
      elim (heard remote c (decode_datagram crc wire memory buffer size c)) [
        | none ↦ none
        | some d ↦ hear_each rest d
      ]

  heard-NoOlder :
      (remote : Endpoint) (r : DecodeResult F) (c d : ClientUdp F)
      → ((x : ClientUdp F) → r ≡ decoded true x → IsNewer c x)
      → ((x : ClientUdp F) → r ≡ decoded false x → x ≡ c)
      → heard remote c r ≡ some d
      → NoOlder c d
  unfolding connected
  heard-NoOlder remote (decoded true x) c d newer same e =
      let k = newer x refl in
      let at : connected remote x ≡ d = cc in
      subst (NoOlder c) at (omega (arith, k.grows), k.same_client)
  heard-NoOlder remote (decoded false x) c d newer same e =
      let at : c ≡ d = cc (same x refl) in subst (NoOlder c) at (omega arith, refl)
  heard-NoOlder remote (rejects x) c d newer same e =
      let at : c ≡ d = cc in subst (NoOlder c) at (omega arith, refl)
  heard-NoOlder remote DecodeResult.fault c d newer same e = absurd (cc)

  hear_each-NoOlder :
      (between : List (Endpoint × Datagram × List ℕ × ℕ)) (c d : ClientUdp F)
      → hear_each between c ≡ some d
      → NoOlder c d
  unfolding hear_each
  hear_each-NoOlder [] c d e = let at : c ≡ d = cc in subst (NoOlder c) at (omega arith, refl)
  hear_each-NoOlder ((remote, memory, buffer, size) ∷ rest) c d e =
      elim (Option-cases (heard remote c (decode_datagram crc wire memory buffer size c))) [
        | inl h ↦ absurd (ground (arith, h))
        | inr (x, h) ↦
            let first =
              heard-NoOlder remote (decode_datagram crc wire memory buffer size c) c x
                (λ y. decode_datagram-IsNewer memory buffer size c)
                (λ y. decode_datagram_same memory buffer size c) h in
            let others = hear_each-NoOlder rest x d (rw (hear_each, h) at e) in
            (omega (arith, first.0, others.0), others.1 ∙ first.1)
      ]

  -- A datagram that was taken over once is never taken over again by the same client object: neither
  -- at once nor after any other datagrams that the receive handler has given to it since.
  pub decode_datagram_twice :
      (memory other : Datagram) (buffer : List ℕ) (size : ℕ) (c : ClientUdp F)
      → (remote : Endpoint) (between : List (Endpoint × Datagram × List ℕ × ℕ))
      → (new later : ClientUdp F) → decode_datagram crc wire memory buffer size c ≡ decoded true new
      → hear_each between (connected remote new) ≡ some later
      → decode_datagram crc wire other buffer size later ≡ decoded false later
  unfolding decode_datagram connected
  decode_datagram_twice memory other buffer size c remote between new later e since =
      let accepted = (after_load-IsNewer (load crc memory buffer size) c e).1 in
      let (same, version, payload) = load_loaded_memory crc memory other buffer size accepted in
      after_load_again (load crc memory buffer size) (load crc other buffer size) c later same
        (sym version) (sym payload) e (hear_each-NoOlder between (connected remote new) later since)
