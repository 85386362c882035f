-- ===== src/MainProcessComm/Conversation.antt =====
-- What the receive handler of main_process_comm/main_process_comm.cpp does with all the datagrams in
-- the bytes.
use Prim.Native.String.{String}
use mathlib.Core.Path.{fun_ext}
use upzp_game_process.Prelude.{
  ℕ, zero, suc, ◌<◌, ◌≡◌, ◌≢◌, ◌⊎◌, refl, sym, ◌∙◌, inl, inr, Option, List, [], ◌∷◌, ◌++◌, length,
  if◌then◌else◌, arith,
}
use upzp_game_process.Doubles.{Doubles}
use upzp_game_process.Datagram.{Crc, Datagram, payload_correctness}
use upzp_game_process.Wire.{Wire}
use upzp_game_process.DatagramStream.{
  State, begin_seq, header_1, header_2, payload, DatagramStream, Progress, flush_data, add_data,
  header_correct,
}
use upzp_game_process.DatagramStream.Invariant.{Knows, IsValid, announced-le}
use upzp_game_process.DatagramStream.Termination.{IsReady-cases, flush_data-fault_iff}
use upzp_game_process.DatagramStream.Extension.{extend}
use upzp_game_process.DatagramStream.Chunks.{IsValid-extend}
use upzp_game_process.DatagramStream.Reference.{
  Found, waiting, complete, reference, frames, Shorter, reference-Shorter,
}
use upzp_game_process.DatagramStream.Refinement.{Gives, flush_data-Gives}
use upzp_game_process.ClientCommunication.{
  Outcome, done, throws, blocked, fault, out_of_fuel, and_then,
}
use upzp_game_process.MainProcessComm.{
  Peers, MainProcessComm, load_clients, use_datagram, drain, handle_receive,
}

module _ {R F : Type 0} where
  -- What becomes of the UDP side and of the game, without the stream.
  abbrev pub peers_of : Outcome (MainProcessComm R F) → Outcome (Peers R F)
  peers_of (done m) = done m.peers
  peers_of (throws m) = throws m.peers
  peers_of blocked = blocked
  peers_of fault = fault
  peers_of out_of_fuel = out_of_fuel

  -- The handler flushes until no datagram is left. If no byte is left either, that is a fault.
  abbrev pub at_end : List ℕ → Peers R F → Outcome (Peers R F)
  at_end [] p = fault
  at_end (a ∷ bs) p = done p

module _ {R F : Type 0} (fl : Doubles R F) (make_address : String → Option String) (crc : Crc)
    (wire : Wire R F) where
  -- One datagram: its clients, if its payload is correct.
  unfoldable pub take_datagram : Datagram → Peers R F → Outcome (Peers R F)
  take_datagram d p =
      if payload_correctness crc d then load_clients fl make_address wire d p else done p

  -- All datagrams in their order; an exception ends it.
  unfoldable pub take_datagrams : List Datagram → List ℕ → Peers R F → Outcome (Peers R F)
  take_datagrams [] rest p = at_end rest p
  take_datagrams (d ∷ ds) rest p = and_then (take_datagrams ds rest) (λ q. q) (take_datagram d p)

  peers_of-and_then :
      (next : Peers R F → Outcome (MainProcessComm R F)) (s : DatagramStream)
      (m : Outcome (Peers R F))
      → peers_of (and_then next (λ q. record { stream = s; peers = q }) m)
        ≡ and_then (λ q. peers_of (next q)) (λ q. q) m
  peers_of-and_then next s (done q) = refl
  peers_of-and_then next s (throws q) = refl
  peers_of-and_then next s blocked = refl
  peers_of-and_then next s fault = refl
  peers_of-and_then next s out_of_fuel = refl

  -- A valid stream that is ready has a byte.
  ready_nonempty :
      (st : State) (buffer : List ℕ) (header n : ℕ)
      → Knows crc st buffer header n
      → (st ≢ begin_seq) ⊎ (0 < length buffer)
      → 0 < length buffer
  unfolding header_correct
  ready_nonempty begin_seq buffer header n k (inl h) = absurd (h refl)
  ready_nonempty begin_seq buffer header n k (inr h) = h
  ready_nonempty header_1 buffer header n k r = omega arith
  ready_nonempty header_2 buffer header n k r = omega arith
  ready_nonempty payload buffer header n k r = ground (arith, announced-le buffer)

  at_end_nonempty : (rest : List ℕ) (p : Peers R F) → 0 < length rest → at_end rest p ≡ done p
  at_end_nonempty [] p h = absurd (omega arith)
  at_end_nonempty (a ∷ bs) p h = refl

  abbrev conclude : List Datagram × List ℕ → Peers R F → Outcome (Peers R F)
  conclude (ds, rest) p = take_datagrams ds rest p

  use_datagram_lem :
      (u : DatagramStream) (p : Peers R F)
      → use_datagram fl make_address crc wire u p ≡ take_datagram u.datagram p
  unfolding use_datagram take_datagram
  use_datagram_lem u p = refl

  and_then-ext :
      (f g : Peers R F → Outcome (Peers R F)) (m : Outcome (Peers R F))
      → ((q : Peers R F) → f q ≡ g q)
      → and_then f (λ q. q) m ≡ and_then g (λ q. q) m
  and_then-ext f g m h = rw (fun_ext h)

  -- One call of `FlushData` and what the handler does with it, with the answer of the pass as a
  -- variable.
  drain_found :
      (fuel bound : ℕ) (t : DatagramStream) (p : Peers R F) (f : Found) (r : Progress)
      → Gives crc t.datagram f r
      → Shorter t.buffer f
      → ((u : DatagramStream) (q : Peers R F)
          → length u.buffer < length t.buffer
          → IsValid crc u
          → peers_of (drain fl make_address crc wire fuel (flush_data crc u) q)
            ≡ conclude (frames crc bound u.datagram u.buffer) q)
      → peers_of (drain fl make_address crc wire (suc fuel) r p)
        ≡ conclude
            (elim f [
              | waiting rest ↦ ([], rest)
              | complete e rest ↦ let (ds, last) = frames crc bound e rest in (e ∷ ds, last)
            ])
            p
  unfolding drain take_datagrams
  drain_found fuel bound t p (waiting rest) r (u, e, kept, same, v, ready) shorter later =
      let some_byte = ready_nonempty u.state u.buffer u.header_length u.payload_length v ready in
      rw (e, drain, ← kept) (sym (at_end_nonempty u.buffer p some_byte))
  drain_found fuel bound t p (complete d rest) r (u, e, kept, same, begins) shorter later =
      let ih = λ (q : Peers R F). later u q (rw kept shorter) (rw begins tt) in
      rw (e, drain)
        (peers_of-and_then (λ q. drain fl make_address crc wire fuel (flush_data crc u) q) u
            (use_datagram fl make_address crc wire u p)
          ∙ rw (use_datagram_lem u p)
              (rw (← kept, ← same) (and_then-ext _ _ (take_datagram u.datagram p) ih)))

  conclude-nil :
      (bound : ℕ) (d : Datagram) (p : Peers R F) → conclude (frames crc (suc bound) d []) p ≡ fault
  unfolding frames reference take_datagrams
  conclude-nil bound d p = refl

  drain-frames :
      (fuel bound : ℕ) (t : DatagramStream) (p : Peers R F)
      → length t.buffer < fuel
      → length t.buffer < bound
      → IsValid crc t
      → peers_of (drain fl make_address crc wire fuel (flush_data crc t) p)
        ≡ conclude (frames crc bound t.datagram t.buffer) p
  unfolding frames drain take_datagrams
  drain-frames zero bound t p room few valid = absurd (omega arith)
  drain-frames (suc fuel) zero t p room few valid = absurd (omega arith)
  drain-frames (suc fuel) (suc bound) t p room few valid =
      elim (IsReady-cases t.state t.buffer t.header_length t.payload_length t.datagram) [
        | inl ready ↦
            drain_found fuel bound t p (reference crc t.datagram t.buffer) (flush_data crc t)
              (flush_data-Gives crc t valid ready) (reference-Shorter crc t.datagram t.buffer)
              (λ u q shorter v. drain-frames fuel bound u q (omega arith) (omega arith) v)
        | inr empty ↦
            rw ((flush_data-fault_iff crc t valid).1 empty, drain)
              (rw empty.1 (sym (conclude-nil bound t.datagram p)))
      ]

  -- On a valid stream the receive handler does to the UDP side and to the game what taking in all the
  -- datagrams does that one pass after the other finds in the bytes of the buffer and the new ones:
  -- the clients of each in its turn, if its payload is correct, with the same exceptions and waits.
  -- If no byte is left at the end, both end in undefined behaviour.
  pub handle_receive-frames :
      (bytes : List ℕ) (m : MainProcessComm R F)
      → IsValid crc m.stream
      → let all = m.stream.buffer ++ bytes in
        let (ds, rest) = frames crc (suc (length all)) m.stream.datagram all in
        peers_of (handle_receive fl make_address crc wire bytes m) ≡ take_datagrams ds rest m.peers
  unfolding handle_receive add_data
  handle_receive-frames bytes m valid =
      drain-frames (suc (suc (length (m.stream.buffer ++ bytes))))
        (suc (length (m.stream.buffer ++ bytes))) (extend bytes m.stream) m.peers (omega arith)
        (omega arith) (IsValid-extend crc bytes m.stream valid)
