-- ===== src/Mockers/Inputs.antt =====
-- The inputs that the mocked client sends, as its client object in the sub-process takes them.
use upzp_game_process.Prelude.{
  ℕ, ◌+◌, ◌%◌, ◌^◌, ◌<◌, ◌≤◌, ◌≡◌, refl, sym, ap, subst, Bool-cases, ==_iff, ◌∙◌, Bool, false,
  Option, none, some, ◌⊎◌, inl, inr, List, [], ◌∷◌, length, ltb, arith,
}
use upzp_game_process.Datagram.{
  Crc, Datagram, get, header_size, set_version, set_payload, set_payload_checksum,
}
use upzp_game_process.Client.{Client}
use upzp_game_process.Wire.{Wire, InputTable}
use upzp_game_process.ClientUdp.{
  ClientUdp, DecodeResult, decoded, decode_datagram, take_input, take_message,
}
use upzp_game_process.ClientUdp.Sequence.{decode_datagram-get}
use upzp_game_process.Mockers.{MockerWire, mock_input_datagram}

-- The arguments of one call of `MockInputDatagram`.
pub record Press (F : Type 0) : Type 0 where
  pub seq : ℕ
  pub move : Bool
  pub dir : F

module _ {R F : Type 0} (crc : Crc) (wire : Wire R F) (mw : MockerWire R F) (memory : Datagram)
    (id : ℕ) where
  abbrev pub table_of : Press F → InputTable F
  table_of p = record {
    sequence = p.seq;
    id = id;
    disconnect = false;
    direction = p.dir;
    move = p.move;
  }

  abbrev pub sent : Press F → List ℕ
  sent p = get crc (mock_input_datagram mw memory p.seq id p.move p.dir)

  -- The message of this input fits, and reads back as it was built.
  abbrev pub Reads : Press F → Type 0
  Reads p =
      (length (mw.finish_input (table_of p)) + 16 < 2 ^ 32)
      × (wire.get_input (mw.finish_input (table_of p)) ≡ some (table_of p))

  abbrev pub AllRead : List (Press F) → Type 0
  AllRead [] = Unit
  AllRead (p ∷ ps) = Reads p × AllRead ps

  -- The client object after these inputs have arrived in this order, if nothing goes wrong.
  abbrev pub hear_result : DecodeResult F → Option (ClientUdp F)
  hear_result (decoded new c) = some c
  hear_result _ = none

  unfoldable pub hear_all : List (Press F) → ClientUdp F → Option (ClientUdp F)
  hear_all [] c = some c
  hear_all (p ∷ ps) c =
      elim (hear_result (decode_datagram crc wire memory (sent p) (length (sent p)) c)) [
        | none ↦ none
        | some c' ↦ hear_all ps c'
      ]

  -- No input of the list is newer than what the client holds.
  abbrev pub Settled : List (Press F) → ClientUdp F → Type 0
  Settled [] c = Unit
  Settled (p ∷ ps) c = (p.seq ≤ c.last_sequence) × Settled ps c

  abbrev Held : Press F → ClientUdp F → Type 0
  Held p c = (c.last_sequence ≡ p.seq) × (c.input.move ≡ p.move) × (c.input.direction ≡ p.dir)

  -- The client holds one of the inputs.
  abbrev pub Holds : List (Press F) → ClientUdp F → Type 0
  Holds [] c = ⊥
  Holds (p ∷ ps) c = Held p c ⊎ Holds ps c

  press_fields :
      (p : Press F)
      → length (mw.finish_input (table_of p)) + 16 < 2 ^ 32
      → let d = mock_input_datagram mw memory p.seq id p.move p.dir in
        (d.version ≡ 101)
        × (d.payload ≡ mw.finish_input (table_of p))
        × (d.payload_checksum_included ≡ false)
  unfolding mock_input_datagram set_payload set_version set_payload_checksum
  press_fields p fits = ground arith

  pub sent_arrives :
      (p : Press F) (c : ClientUdp F)
      → Reads p
      → decode_datagram crc wire memory (sent p) (length (sent p)) c ≡ take_input (table_of p) c
  sent_arrives p c (fits, reads) =
      let d : Datagram = mock_input_datagram mw memory p.seq id p.move p.dir in
      let (version, bytes, plain) = press_fields p fits in
      let size : header_size d.payload_checksum_included + length d.payload < 2 ^ 32 =
        rw (plain, bytes) (omega arith) in
      decode_datagram-get crc wire memory d c (ap (λ (v : ℕ). v % 256) version) size
      ∙ ap (λ (t : Option (InputTable F)). take_message t c) (ap wire.get_input bytes ∙ reads)

  take_older :
      (p : Press F) (c : ClientUdp F)
      → p.seq ≤ c.last_sequence
      → take_input (table_of p) c ≡ decoded false c
  unfolding take_input
  take_older p c old = ground arith

  -- One input either leaves the client as it is, for it is no newer, or is taken over.
  take_press :
      (p : Press F) (c : ClientUdp F)
      → id ≡ c.client.id
      → (d : ClientUdp F) × (hear_result (take_input (table_of p) c) ≡ some d)
        × (d.client ≡ c.client)
        × (c.last_sequence ≤ d.last_sequence)
        × (p.seq ≤ d.last_sequence)
        × ((d ≡ c) ⊎ (Held p d × (c.last_sequence < d.last_sequence)))
  unfolding take_input
  take_press p c same = elim (Bool-cases (ltb c.last_sequence p.seq)) [
    | inr old ↦ (
      c,
      ap hear_result (take_older p c (ground arith)),
      refl,
      omega arith,
      ground arith,
      inl refl,
    )
    | inl newer ↦ (
      record c {
        input = record c.input { move = p.move; direction = p.dir };
        last_sequence = p.seq;
      },
      rw (newer, (==_iff id c.client.id).1 same) refl,
      refl,
      ground arith,
      omega arith,
      inr ((refl, refl, refl), ground arith),
    )
  ]

  -- Inputs of this client that arrive in any order, each in a message of less than 2 ^ 32 bytes that
  -- reads back as it was built: every one is decoded. No input of them is newer then than what the
  -- client holds, and the client is as it was, or it holds one of them with a greater sequence number
  -- than it had.
  pub hear_all-Holds :
      (ps : List (Press F)) (c : ClientUdp F)
      → id ≡ c.client.id
      → AllRead ps
      → (d : ClientUdp F) × (hear_all ps c ≡ some d)
        × (d.client ≡ c.client)
        × (c.last_sequence ≤ d.last_sequence)
        × Settled ps d
        × ((d ≡ c) ⊎ (Holds ps d × (c.last_sequence < d.last_sequence)))
  unfolding hear_all
  hear_all-Holds [] c same reads = (c, refl, refl, omega arith, tt, inl refl)
  hear_all-Holds (p ∷ ps) c same (read, reads) =
      let (d, heard, client, grows, settled, holds) = take_press p c same in
      let (e, heard', client', grows', settled', holds') =
        hear_all-Holds ps d (same ∙ sym (ap (λ (x : Client). x.id) client)) reads in
      (
        e,
        rw (hear_all, sent_arrives p c read, heard) heard',
        client' ∙ client,
        omega (arith, grows, grows'),
        (omega (arith, settled, grows'), settled'),
        elim holds' [
          | inr (later, more) ↦ inr (inr later, omega (arith, more, grows))
          | inl kept ↦ elim holds [
            | inl kept' ↦ inl (kept ∙ kept')
            | inr (taken, more) ↦
                inr (inl (subst (Held p) (sym kept) taken), omega (arith, more, grows'))
          ]
        ],
      )
