-- ===== src/DatagramStream/Extension.antt =====
-- What a buffer of datagram/datagram_stream.cpp still is with more bytes at its end.
use upzp_game_process.Prelude.{
  ℕ, ◌+◌, ◌-◌, ◌≤◌, ◌≡◌, refl, sym, ap, ◌∙◌, true, List, ◌++◌, length, take, drop, leb, leb→le,
  le→leb, length-append, take-append, drop-append, length-drop, byte_at, byte_at-append,
  u16_at-append, u32_at-append, arith,
}
use upzp_game_process.Datagram.{Crc, Datagram, load, loaded}
use upzp_game_process.Datagram.Safety.{announced_header, stored}
use upzp_game_process.DatagramStream.{payload, DatagramStream, header_correct}
use upzp_game_process.DatagramStream.Invariant.{Knows, announced-le, load_accepts}

-- The stream with more bytes at the end of its buffer.
abbrev pub extend : List ℕ → DatagramStream → DatagramStream
extend ys s = record s { buffer = s.buffer ++ ys }

pub leb-append :
    (k : ℕ) (xs ys : List ℕ) → leb k (length xs) ≡ true → leb k (length (xs ++ ys)) ≡ true
leb-append k xs ys h = ground (arith, length-append xs ys)

pub announced_header-append :
    (xs ys : List ℕ) → 12 ≤ length xs → announced_header (xs ++ ys) ≡ announced_header xs
announced_header-append xs ys h = rw (byte_at-append xs ys 3 (omega arith)) refl

pub header_correct-append :
    (crc : Crc) (xs ys : List ℕ) (header : ℕ)
    → 12 ≤ header
    → leb header (length xs) ≡ true
    → header_correct crc (xs ++ ys) header ≡ header_correct crc xs header
unfolding header_correct
header_correct-append crc xs ys header h fits =
    let within : header ≤ length xs = leb→le _ _ fits in
    ground (
      arith,
      length-append xs ys,
      byte_at-append xs ys 0 (omega arith),
      byte_at-append xs ys 1 (omega arith),
      u16_at-append xs ys (header - 2) (omega arith),
      take-append (header - 2) xs ys (omega arith),
    )

stored-append : (d : Datagram) (xs ys : List ℕ) → 12 ≤ length xs → stored d (xs ++ ys) ≡ stored d xs
stored-append d xs ys h =
    let at : (i : ℕ) → i + 1 ≤ 12 → byte_at (xs ++ ys) i ≡ byte_at xs i =
      λ i small. byte_at-append xs ys i (omega arith) in
    rw (
      at 2 (omega arith),
      at 3 (omega arith),
      at 4 (omega arith),
      at 5 (omega arith),
      at 6 (omega arith),
      at 7 (omega arith),
      at 8 (omega arith),
      at 9 (omega arith),
      at 10 (omega arith),
      at 11 (omega arith),
    )

payload-append :
    (xs ys : List ℕ) (header n : ℕ)
    → header + n ≤ length xs
    → take n (drop header (xs ++ ys)) ≡ take n (drop header xs)
payload-append xs ys header n fits =
    let left = length-drop header xs in
    rw (drop-append header xs ys (omega arith)) (take-append n (drop header xs) ys (omega arith))

module _ (crc : Crc) (buffer ys : List ℕ) (header n : ℕ) where
  pub payload-Knows :
      header ≤ length buffer
      → Knows crc payload buffer header n
      → Knows crc payload (buffer ++ ys) header n
  payload-Knows fits k =
      let long : 12 ≤ header = rw k.0 (announced-le buffer) in
      (
        k.0 ∙ sym (announced_header-append buffer ys (omega arith)),
        header_correct-append crc buffer ys header long (le→leb _ _ fits) ∙ k.1,
        k.2 ∙ sym (u32_at-append buffer ys 4 (omega arith)),
      )

-- `Load` of a complete datagram does not look behind it.
pub load_accepts-append :
    (crc : Crc) (buffer ys : List ℕ) (header n : ℕ) (d : Datagram)
    → header + n ≤ length buffer
    → Knows crc payload buffer header n
    → load crc d (buffer ++ ys) (header + n) ≡ load crc d buffer (header + n)
load_accepts-append crc buffer ys header n d room k =
    let long : 12 ≤ header = rw k.0 (announced-le buffer) in
    let (e, good, en) = payload-Knows crc buffer ys header n (omega arith) k in
    let slice = payload-append buffer ys header n room in
    let more : header + n ≤ length (buffer ++ ys) = omega (arith, length-append buffer ys) in
    load_accepts crc d (buffer ++ ys) header n e good en more
    ∙ ap (λ (x : Datagram). (record x { payload = take n (drop header (buffer ++ ys)) }, loaded))
        (stored-append d buffer ys (omega arith))
    ∙ ap (λ (p : List ℕ). (record (stored d buffer) { payload = p }, loaded)) slice
    ∙ sym (load_accepts crc d buffer header n k.0 k.1 k.2 room)
