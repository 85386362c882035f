-- ===== src/DatagramStream/Framing.antt =====
-- A stream that carries a datagram: `DatagramStream` against `Datagram::Get`.
use upzp_game_process.Prelude.{
  ℕ, suc, ◌+◌, ◌^◌, ◌<◌, ◌≡◌, refl, ap, ◌∙◌, Bool, true, false, List, [], ◌∷◌, ◌++◌, length, drop,
  leb, le→leb, length-append, u32_at, drop-length-append, arith,
}
use upzp_game_process.Datagram.{Crc, Datagram, get, header_size}
use upzp_game_process.Datagram.Safety.{announced_header}
use upzp_game_process.Datagram.RoundTrip.{received, fields, length-get, load-get}
use upzp_game_process.DatagramStream.{
  begin_seq, header_1, DatagramStream, returned, find_from, find_begin_sequence, found,
  header_correct, header_1_step, header_2_step, payload_step, later_steps, round, flush_loop,
  flush_data, add_data,
}
use upzp_game_process.DatagramStream.Invariant.{stream}
use upzp_game_process.DatagramStream.Rounds.{round_found}

-- No begin sequence among these bytes.
abbrev pub IsClean : List ℕ → Type 0
IsClean [] = Unit
IsClean (a ∷ []) = Unit
IsClean (a ∷ (b ∷ bs)) = ¬ ((a ≡ 0xDA) × (b ≡ 0xAB)) × IsClean (b ∷ bs)

find_from-IsClean :
    (i a : ℕ) (bs rest : List ℕ)
    → IsClean (a ∷ bs)
    → find_from i a (bs ++ (0xDA ∷ 0xAB ∷ rest)) ≡ found (i + suc (length bs))
unfolding find_from
find_from-IsClean i a [] rest clean = ground arith
find_from-IsClean i a (b ∷ bs) rest clean = ground (arith, find_from-IsClean (i + 1) b bs rest)

-- The header that `Get` writes, as the stream reads it.
module _ (crc : Crc) (rest : List ℕ) where
  abbrev HeaderRead : Datagram → Type 0
  HeaderRead d =
      let g = get crc d ++ rest in
      (leb 12 (length g) ≡ true)
      × (announced_header g ≡ header_size d.payload_checksum_included)
      × (header_correct crc g (header_size d.payload_checksum_included) ≡ true)
      × (u32_at g 4 ≡ length d.payload)

  HeaderRead-at :
      (v n c : ℕ) (p : List ℕ) (b : Bool) → length p < 2 ^ 32 → HeaderRead (fields v n c p b)
  unfolding get header_correct
  HeaderRead-at v n c p true small = (ground arith, ground arith, ground arith, omega arith)
  HeaderRead-at v n c p false small = (ground arith, ground arith, ground arith, omega arith)

  get-HeaderRead : (d : Datagram) → length d.payload < 2 ^ 32 → HeaderRead d
  get-HeaderRead d =
      HeaderRead-at d.version d.payload_length d.payload_checksum d.payload
        d.payload_checksum_included

-- The stream behind a datagram, with `rest` left in its buffer.
abbrev pub delivered : Crc → Datagram → List ℕ → Datagram → DatagramStream
delivered crc d rest memory =
    stream begin_seq rest (header_size d.payload_checksum_included) (length d.payload)
      (received crc memory d)

module _ (crc : Crc) (d : Datagram) (rest : List ℕ) (header n : ℕ) (memory : Datagram) where
  later_steps-get :
      header_size d.payload_checksum_included + length d.payload < 2 ^ 32
      → later_steps crc (stream header_1 (get crc d ++ rest) header n memory)
        ≡ returned true (delivered crc d rest memory)
  unfolding header_1_step header_2_step payload_step
  later_steps-get small =
      let hs : ℕ = header_size d.payload_checksum_included in
      let g : List ℕ = get crc d ++ rest in
      let total = length-get crc d in
      let whole = length-append (get crc d) rest in
      let (long, announced, good, size) = get-HeaderRead crc rest d (omega arith) in
      let room : leb hs (length g) ≡ true = le→leb _ _ (omega arith) in
      let complete : leb (hs + length d.payload) (length g) ≡ true = le→leb _ _ (omega arith) in
      let behind : drop (hs + length d.payload) g ≡ rest =
        rw (← total) (drop-length-append (get crc d) rest) in
      rw (
        long,
        announced,
        room,
        good,
        size,
        complete,
        load-get crc d memory rest (hs + length d.payload) small (omega arith),
        behind,
      )

round-noise :
    (crc : Crc) (noise tail : List ℕ) (header n : ℕ) (memory : Datagram)
    → IsClean noise
    → let g : List ℕ = 0xDA ∷ 0xAB ∷ tail in
      round crc (stream begin_seq (noise ++ g) header n memory)
      ≡ later_steps crc (stream header_1 g header n memory)
unfolding find_begin_sequence find_from
round-noise crc [] tail header n memory clean =
    round_found crc 0 0xDA (0xAB ∷ tail) header n memory refl
round-noise crc (a ∷ bs) tail header n memory clean =
    let g : List ℕ = 0xDA ∷ 0xAB ∷ tail in
    round_found crc (suc (length bs)) a (bs ++ g) header n memory
      (find_from-IsClean 0 a bs tail clean ∙ ap found (omega arith))
    ∙ ap (λ (b : List ℕ). later_steps crc (stream header_1 b header n memory))
        (drop-length-append (a ∷ bs) g)

round-get :
    (crc : Crc) (noise : List ℕ) (d : Datagram) (rest : List ℕ) (header n : ℕ) (memory : Datagram)
    → IsClean noise
    → header_size d.payload_checksum_included + length d.payload < 2 ^ 32
    → round crc (stream begin_seq (noise ++ (get crc d ++ rest)) header n memory)
      ≡ returned true (delivered crc d rest memory)
unfolding get
round-get crc noise d rest header n memory clean small =
    round-noise crc noise (drop 2 (get crc d ++ rest)) header n memory clean
    ∙ later_steps-get crc d rest header n memory small

-- On a stream with an empty buffer that searches a begin sequence: bytes without a begin sequence
-- are skipped, the first datagram behind them (its frame shorter than 2 ^ 32 bytes) is delivered
-- as `received` says, and the bytes behind that stay in the buffer.
pub add_data-get :
    (crc : Crc) (noise : List ℕ) (d : Datagram) (rest : List ℕ) (header n : ℕ) (memory : Datagram)
    → IsClean noise
    → header_size d.payload_checksum_included + length d.payload < 2 ^ 32
    → add_data crc (noise ++ (get crc d ++ rest)) (stream begin_seq [] header n memory)
      ≡ returned true (delivered crc d rest memory)
unfolding add_data flush_data flush_loop
add_data-get crc noise d rest header n memory clean small =
    rw (round-get crc noise d rest header n memory clean small, flush_loop)
