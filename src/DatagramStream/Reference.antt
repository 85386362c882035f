-- ===== src/DatagramStream/Reference.antt =====
-- What datagram/datagram_stream.cpp is to find in its bytes, said without states and rounds: one pass
-- from left to right that asks at each place whether a datagram stands there.
use upzp_game_process.Prelude.{
  ℕ, zero, suc, ◌+◌, ◌≤◌, ◌<◌, ◌≡◌, refl, ◌&&◌, not, List, [], ◌∷◌, length, take, drop, ltb, leb,
  ◌==◌, if◌then◌else◌, arith, byte_at, u32_at, length-drop,
}
use upzp_game_process.Datagram.{Crc, Datagram, header_checksum_correct}
use upzp_game_process.Datagram.Safety.{announced_header, stored}
use upzp_game_process.DatagramStream.Invariant.{announced-le}

-- The bytes at a place are no datagram, too few to tell, or begin with a datagram of that size.
pub data Front : Type 0 where
  skip waits : Front
  whole : ℕ → Front

module _ (crc : Crc) where
  unfoldable pub front : List ℕ → Front
  front buffer =
      if leb (length buffer) 1
      then waits
      else if not (byte_at buffer 0 == 0xDA && byte_at buffer 1 == 0xAB)
      then skip
      else if ltb (length buffer) 12
      then waits
      else if ltb (length buffer) (announced_header buffer)
      then waits
      else if not (header_checksum_correct crc buffer (announced_header buffer))
      then skip
      else if ltb (length buffer) (announced_header buffer + u32_at buffer 4)
      then waits
      else whole (announced_header buffer + u32_at buffer 4)

-- What a receiver holds that held `d` and takes in the datagram at the beginning of the bytes.
abbrev pub opened : Datagram → List ℕ → Datagram
opened d buffer = record (stored d buffer) {
  payload = take (u32_at buffer 4) (drop (announced_header buffer) buffer);
}

-- The bytes that are kept while no datagram is complete, or the first datagram and the bytes behind.
pub data Found : Type 0 where
  waiting : List ℕ → Found
  complete : Datagram → List ℕ → Found

module _ (crc : Crc) (d : Datagram) where
  unfoldable pub reference : List ℕ → Found
  reference [] = waiting []
  reference (a ∷ bs) = elim (front crc (a ∷ bs)) [
    | skip ↦ reference bs
    | waits ↦ waiting (a ∷ bs)
    | whole n ↦ complete (opened d (a ∷ bs)) (drop n (a ∷ bs))
  ]

  -- The pass at a place of any list that is not empty.
  pub reference_step :
      (buffer : List ℕ)
      → 0 < length buffer
      → reference buffer ≡ elim (front crc buffer) [
        | skip ↦ reference (drop 1 buffer)
        | waits ↦ waiting buffer
        | whole n ↦ complete (opened d buffer) (drop n buffer)
      ]
  unfolding reference
  reference_step [] h = absurd (omega arith)
  reference_step (a ∷ bs) h = refl

-- A complete datagram takes bytes.
abbrev pub Shorter : List ℕ → Found → Type 0
Shorter buffer (waiting rest) = Unit
Shorter buffer (complete e rest) = length rest < length buffer

Shorter-mono :
    (short long : List ℕ) (r : Found)
    → length short ≤ length long
    → Shorter short r
    → Shorter long r
Shorter-mono short long (waiting rest) h k = tt
Shorter-mono short long (complete e rest) h k = omega arith

front-whole : (crc : Crc) (buffer : List ℕ) (n : ℕ) → front crc buffer ≡ whole n → 12 ≤ n
unfolding front
front-whole crc buffer n e = ground (arith, announced-le buffer)

-- The pass at a place, with its answer there as a variable.
module _ (crc : Crc) (d : Datagram) where
  Shorter-front :
      (a : ℕ) (bs : List ℕ) (f : Front)
      → front crc (a ∷ bs) ≡ f
      → Shorter bs (reference crc d bs)
      → Shorter (a ∷ bs) (elim f [
        | skip ↦ reference crc d bs
        | waits ↦ waiting (a ∷ bs)
        | whole n ↦ complete (opened d (a ∷ bs)) (drop n (a ∷ bs))
      ])
  Shorter-front a bs skip e k = Shorter-mono bs (a ∷ bs) (reference crc d bs) (omega arith) k
  Shorter-front a bs waits e k = tt
  Shorter-front a bs (whole n) e k =
      let long = front-whole crc (a ∷ bs) n e in let shorter = length-drop n (a ∷ bs) in omega arith

  pub reference-Shorter : (buffer : List ℕ) → Shorter buffer (reference crc d buffer)
  unfolding reference
  reference-Shorter [] = tt
  reference-Shorter (a ∷ bs) = Shorter-front a bs (front crc (a ∷ bs)) refl (reference-Shorter bs)

-- All datagrams of the bytes one after the other, and the bytes that are left. A datagram takes bytes,
-- so their number is fuel enough.
module _ (crc : Crc) where
  unfoldable pub frames : ℕ → Datagram → List ℕ → List Datagram × List ℕ
  frames zero d buffer = ([], buffer)
  frames (suc fuel) d buffer = elim (reference crc d buffer) [
    | waiting rest ↦ ([], rest)
    | complete e rest ↦ let (ds, last) = frames fuel e rest in (e ∷ ds, last)
  ]
