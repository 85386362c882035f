-- ===== src/DatagramStream/Chunks.antt =====
-- The bytes of a stream (datagram/datagram_stream.cpp) in pieces.
use upzp_game_process.Prelude.{
  ℕ, zero, suc, ◌+◌, ◌≤◌, ◌<◌, ◌≡◌, refl, sym, ap, ◌∙◌, inl, inr, true, false, List, ◌++◌,
  append_assoc, length, length-append, byte_at-append, arith,
}
use upzp_game_process.Datagram.{Crc}
use upzp_game_process.DatagramStream.{
  State, begin_seq, header_1, header_2, payload, DatagramStream, Progress, fault, returned, again,
  header_correct, round, flush_loop, flush_data, add_data,
}
use upzp_game_process.DatagramStream.Invariant.{
  BeginsDatagram, Knows, IsValid, IsReady, round_keeps,
}
use upzp_game_process.DatagramStream.Termination.{Progress-cases}
use upzp_game_process.DatagramStream.Extension.{extend, payload-Knows, announced_header-append}
use upzp_game_process.DatagramStream.Rounds.{round-Follows}

flush_loop_fuel :
    (crc : Crc) (f g : ℕ) (s : DatagramStream)
    → length s.buffer < f
    → length s.buffer < g
    → IsValid crc s
    → IsReady s
    → flush_loop crc f s ≡ flush_loop crc g s
unfolding flush_loop
flush_loop_fuel crc zero g s hf hg valid ready = absurd (omega arith)
flush_loop_fuel crc (suc f) zero s hf hg valid ready = absurd (omega arith)
flush_loop_fuel crc (suc f) (suc g) s hf hg valid ready =
    elim (Progress-cases crc s.buffer (round crc s) (round_keeps crc s valid ready)) [
      | inl (b, t, e, v, r, l) ↦ rw (e, flush_loop)
      | inr (t, e, v, pos, shorter) ↦
          rw (e, flush_loop) (flush_loop_fuel crc f g t (omega arith) (omega arith) v (inr pos))
    ]

header_correct-le :
    (crc : Crc) (buffer : List ℕ) (header : ℕ)
    → header_correct crc buffer header ≡ true
    → header ≤ length buffer
unfolding header_correct
header_correct-le crc buffer header h = ground arith

BeginsDatagram-append : (buffer ys : List ℕ) → BeginsDatagram buffer → BeginsDatagram (buffer ++ ys)
BeginsDatagram-append buffer ys k = (
  omega (arith, length-append buffer ys),
  byte_at-append buffer ys 0 (omega arith) ∙ k.1,
  byte_at-append buffer ys 1 (omega arith) ∙ k.2,
)

Knows-append :
    (crc : Crc) (st : State) (buffer ys : List ℕ) (header n : ℕ)
    → Knows crc st buffer header n
    → Knows crc st (buffer ++ ys) header n
Knows-append crc begin_seq buffer ys header n k = tt
Knows-append crc header_1 buffer ys header n k = BeginsDatagram-append buffer ys k
Knows-append crc header_2 buffer ys header n k = (
  BeginsDatagram-append buffer ys k.0,
  omega (arith, length-append buffer ys),
  k.2 ∙ sym (announced_header-append buffer ys k.1),
)
Knows-append crc payload buffer ys header n k =
    payload-Knows crc buffer ys header n (header_correct-le crc buffer header k.1) k

pub IsValid-extend :
    (crc : Crc) (ys : List ℕ) (s : DatagramStream) → IsValid crc s → IsValid crc (extend ys s)
IsValid-extend crc ys s = Knows-append crc s.state s.buffer ys s.header_length s.payload_length

pub IsReady-extend : (ys : List ℕ) (s : DatagramStream) → IsReady s → IsReady (extend ys s)
IsReady-extend ys s (inl h) = inl h
IsReady-extend ys s (inr h) = inr (omega (arith, length-append s.buffer ys))

abbrev extended : List ℕ → Progress → Progress
extended ys fault = fault
extended ys (returned b t) = returned b (extend ys t)
extended ys (again t) = again (extend ys t)

-- A loop that completes a datagram does the same with more bytes behind it.
flush_loop-append_true :
    (crc : Crc) (ys : List ℕ) (f g : ℕ) (s t : DatagramStream)
    → length s.buffer < f
    → length s.buffer < g
    → IsValid crc s
    → IsReady s
    → flush_loop crc f s ≡ returned true t
    → flush_loop crc g (extend ys s) ≡ returned true (extend ys t)
unfolding flush_loop
flush_loop-append_true crc ys zero g s t hf hg valid ready e = absurd (omega arith)
flush_loop-append_true crc ys (suc f) zero s t hf hg valid ready e = absurd (omega arith)
flush_loop-append_true crc ys (suc f) (suc g) s t hf hg valid ready e =
    let follows = round-Follows crc ys s valid ready in
    elim (Progress-cases crc s.buffer (round crc s) (round_keeps crc s valid ready)) [
      | inl (true, u, h, v, r, l) ↦
          let same : returned true u ≡ returned true t = rw (h, flush_loop) at e in
          rw (rw h at follows, flush_loop) (ap (extended ys) same)
      | inl (false, u, h, v, r, l) ↦
          let differs : returned false u ≡ returned true t = rw (h, flush_loop) at e in absurd (cc)
      | inr (u, h, v, pos, shorter) ↦
          rw (rw h at follows, flush_loop)
            (flush_loop-append_true crc ys f g u t (omega arith) (omega arith) v (inr pos)
              (rw (h, flush_loop) at e))
    ]

flush_loop-round :
    (crc : Crc) (fuel : ℕ) (s t : DatagramStream)
    → round crc s ≡ round crc t
    → flush_loop crc (suc fuel) s ≡ flush_loop crc (suc fuel) t
unfolding flush_loop
flush_loop-round crc fuel s t e = rw (e, flush_loop)

-- The stream of an answer.
abbrev answer : DatagramStream → Progress → DatagramStream
answer s fault = s
answer s (returned b t) = t
answer s (again t) = t

-- A loop that waits goes on, with more bytes, from where it waits.
flush_loop-append_false :
    (crc : Crc) (ys : List ℕ) (f g h : ℕ) (s t : DatagramStream)
    → length s.buffer < f
    → length s.buffer + length ys < g
    → length t.buffer + length ys < h
    → IsValid crc s
    → IsReady s
    → flush_loop crc f s ≡ returned false t
    → flush_loop crc g (extend ys s) ≡ flush_loop crc h (extend ys t)
unfolding flush_loop
flush_loop-append_false crc ys zero g h s t hf hg hh valid ready e = absurd (omega arith)
flush_loop-append_false crc ys (suc f) zero h s t hf hg hh valid ready e = absurd (omega arith)
flush_loop-append_false crc ys (suc f) (suc g) h s t hf hg hh valid ready e =
    let follows = round-Follows crc ys s valid ready in
    let keeps = round_keeps crc s valid ready in
    elim (Progress-cases crc s.buffer (round crc s) keeps) [
      | inl (true, u, eu, v, r, l) ↦
          let differs : returned true u ≡ returned false t = rw (eu, flush_loop) at e in absurd (cc)
      | inl (false, u, eu, v, r, l) ↦
          let same : u ≡ t = ap (answer s) (rw (eu, flush_loop) at e) in
          let bound : length u.buffer ≤ length s.buffer = (rw eu at keeps).1 in
          let shown = ap (λ (x : DatagramStream). length x.buffer) same in
          let sum = length-append u.buffer ys in
          flush_loop-round crc g (extend ys s) (extend ys u) (rw eu at follows)
          ∙ flush_loop_fuel crc (suc g) h (extend ys u) (omega arith) (omega arith)
              (IsValid-extend crc ys u v) (IsReady-extend ys u (r refl))
          ∙ ap (λ (x : DatagramStream). flush_loop crc h (extend ys x)) same
      | inr (u, eu, v, pos, shorter) ↦
          rw (rw eu at follows, flush_loop)
            (flush_loop-append_false crc ys f g h u t (omega arith) (omega arith) hh v (inr pos)
              (rw (eu, flush_loop) at e))
    ]

-- The bytes of a stream may come in any pieces: on a valid stream that has a byte to look at,
-- after a call of `AddData` that answers false, the next bytes have the effect that all of them
-- have at once.
pub add_data-append :
    (crc : Crc) (xs ys : List ℕ) (s t : DatagramStream)
    → IsValid crc s
    → IsReady (extend xs s)
    → add_data crc xs s ≡ returned false t
    → add_data crc (xs ++ ys) s ≡ add_data crc ys t
unfolding add_data flush_data
add_data-append crc xs ys s t valid ready e =
    ap (λ (b : List ℕ). flush_data crc (record s { buffer = b }))
      (sym (append_assoc s.buffer xs ys))
    ∙ flush_loop-append_false crc ys _ _ _ (extend xs s) t (omega arith)
        (omega (arith, length-append (s.buffer ++ xs) ys))
        (omega (arith, length-append t.buffer ys)) (IsValid-extend crc xs s valid) ready e

-- On a valid stream that has a byte to look at, a call of `AddData` that completes a datagram
-- completes the same one with more bytes behind, and leaves these untouched at the end of the
-- buffer.
pub add_data-append_true :
    (crc : Crc) (xs ys : List ℕ) (s t : DatagramStream)
    → IsValid crc s
    → IsReady (extend xs s)
    → add_data crc xs s ≡ returned true t
    → add_data crc (xs ++ ys) s ≡ returned true (extend ys t)
unfolding add_data flush_data
add_data-append_true crc xs ys s t valid ready e =
    ap (λ (b : List ℕ). flush_data crc (record s { buffer = b }))
      (sym (append_assoc s.buffer xs ys))
    ∙ flush_loop-append_true crc ys _ _ (extend xs s) t (omega arith)
        (omega (arith, length-append (s.buffer ++ xs) ys)) (IsValid-extend crc xs s valid) ready e
