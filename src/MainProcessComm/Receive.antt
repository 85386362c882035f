-- ===== src/MainProcessComm/Receive.antt =====
-- How the receive handler of main_process_comm/main_process_comm.cpp ends.
use Prim.Native.String.{String}
use upzp_game_process.Prelude.{
  ℕ, zero, suc, ◌+◌, ◌^◌, ◌<◌, ◌≡◌, refl, inl, inr, Bool, true, false, Option, none, some, List, [],
  ◌∷◌, ◌++◌, length, ◌==◌, arith, Bool-cases, Option-cases,
}
use upzp_game_process.Prelude.Int.{ℤ}
use upzp_game_process.Doubles.{Doubles}
use upzp_game_process.Datagram.{Crc, Datagram, get, header_size, payload_correctness}
use upzp_game_process.DatagramStream.{
  begin_seq, DatagramStream, Progress, returned, add_data, flush_data,
}
use upzp_game_process.DatagramStream.Invariant.{IsValid, IsReady, stream}
use upzp_game_process.DatagramStream.Termination.{
  Ends, flush_data-Ends, IsReady-cases, flush_data-fault_iff,
}
use upzp_game_process.DatagramStream.Extension.{extend}
use upzp_game_process.DatagramStream.Framing.{IsClean, delivered, add_data-get}
use upzp_game_process.DatagramStream.Pieces.{add_data-Ends}
use upzp_game_process.Client.{Client}
use upzp_game_process.Wire.{Wire, FClient, FTeam, FGame}
use upzp_game_process.ClientCommunication.{
  ClientCommunication, Outcome, done, throws, blocked, fault, out_of_fuel, and_then, add_client,
  add_clients, emplace_all,
}
use upzp_game_process.ClientUdp.{new_client_udp}
use upzp_game_process.MainProcessComm.{
  Peers, MainProcessComm, into_comm, load_client, load_team, load_clients_of, load_teams, load_game,
  load_clients, read_client, game_clients_version, use_datagram, drain, handle_receive,
}

-- What can happen in the program.
abbrev pub IsReal : {A : Type 0} → Outcome A → Type 0
IsReal out_of_fuel = ⊥
IsReal (done a) = Unit
IsReal (throws a) = Unit
IsReal blocked = Unit
IsReal fault = Unit

and_then-IsReal :
    {A B : Type 0} (next : A → Outcome B) (place : A → B) (m : Outcome A)
    → ((a : A) → IsReal (next a))
    → IsReal m
    → IsReal (and_then next place m)
and_then-IsReal next place (done a) h k = h a
and_then-IsReal next place (throws a) h k = tt
and_then-IsReal next place blocked h k = tt
and_then-IsReal next place fault h k = tt
and_then-IsReal next place out_of_fuel h k = k

module _ {R F : Type 0} (fl : Doubles R F) (make_address : String → Option String) where
  emplace_all-IsReal :
      (cs : List Client) (comm : ClientCommunication F)
      → IsReal (emplace_all fl make_address cs comm)
  unfolding emplace_all
  emplace_all-IsReal [] comm = tt
  emplace_all-IsReal (c ∷ cs) comm = elim (Option-cases (new_client_udp fl make_address c)) [
    | inl e ↦ rw (e, emplace_all) tt
    | inr (u, e) ↦ rw (e, emplace_all) (emplace_all-IsReal cs _)
  ]

  add_client-IsReal :
      (c : Client) (comm : ClientCommunication F) → IsReal (add_client fl make_address c comm)
  unfolding add_client add_clients
  add_client-IsReal c comm = elim (Bool-cases comm.locked) [
    | inl e ↦ simp e tt
    | inr e ↦ simp e (emplace_all-IsReal (c ∷ []) comm)
  ]

  into_comm-IsReal :
      (c : Client) (comm : Option (ClientCommunication F))
      → IsReal (into_comm fl make_address c comm)
  into_comm-IsReal c none = tt
  into_comm-IsReal c (some comm) = and_then-IsReal _ _ _ (λ x. tt) (add_client-IsReal c comm)

  load_team-IsReal :
      (red : Bool) (cs : List FClient) (p : Peers R F) → IsReal (load_team fl make_address red cs p)
  unfolding load_team load_client
  load_team-IsReal red [] p = tt
  load_team-IsReal red (c ∷ cs) p = elim (Option-cases (read_client c)) [
    | inl e ↦ rw (e, load_team) tt
    | inr (client, e) ↦
        rw (e, load_team)
          (and_then-IsReal _ _ _ (load_team-IsReal red cs)
            (and_then-IsReal _ _ _ (λ x. tt) (into_comm-IsReal client p.comm)))
  ]

  of_clients-IsReal :
      (red : Bool) (cs : Option (List FClient)) (p : Peers R F)
      → IsReal (load_clients_of fl make_address red (record { clients = cs }) p)
  of_clients-IsReal red none p = tt
  of_clients-IsReal red (some cs) p = load_team-IsReal red cs p

  load_teams-IsReal : (ts : List FTeam) (p : Peers R F) → IsReal (load_teams fl make_address ts p)
  unfolding load_teams
  load_teams-IsReal [] p = tt
  load_teams-IsReal (red ∷ []) p = tt
  load_teams-IsReal (red ∷ (blue ∷ more)) p =
      and_then-IsReal _ _ _ (of_clients-IsReal false blue.clients)
        (of_clients-IsReal true red.clients p)

  of_teams-IsReal :
      (ts : Option (List FTeam)) (id : ℤ) (p : Peers R F)
      → IsReal (load_game fl make_address (some (record { teams = ts; id = id })) p)
  of_teams-IsReal none id p = tt
  of_teams-IsReal (some ts) id p = load_teams-IsReal ts p

  load_game-IsReal : (g : Option FGame) (p : Peers R F) → IsReal (load_game fl make_address g p)
  load_game-IsReal none p = tt
  load_game-IsReal (some g) p = of_teams-IsReal g.teams g.id p

module _ {R F : Type 0} (fl : Doubles R F) (make_address : String → Option String) (crc : Crc)
    (wire : Wire R F) where
  use_datagram-IsReal :
      (s : DatagramStream) (p : Peers R F) → IsReal (use_datagram fl make_address crc wire s p)
  unfolding use_datagram load_clients
  use_datagram-IsReal s p = elim (Bool-cases (payload_correctness crc s.datagram)) [
    | inl e ↦ elim (Bool-cases (s.datagram.version == game_clients_version)) [
      | inl v ↦ simp (e, v) (load_game-IsReal fl make_address (wire.get_game s.datagram.payload) p)
      | inr v ↦ simp (e, v) tt
    ]
    | inr e ↦ simp e tt
  ]

  fault-IsReal :
      (fuel : ℕ) (p : Peers R F)
      → 0 < fuel
      → IsReal (drain fl make_address crc wire fuel Progress.fault p)
  unfolding drain
  fault-IsReal zero p h = absurd (omega arith)
  fault-IsReal (suc fuel) p h = tt

  drain-IsReal :
      (fuel : ℕ) (r : Progress) (buffer : List ℕ) (p : Peers R F)
      → length buffer < fuel
      → Ends crc buffer r
      → IsReal (drain fl make_address crc wire fuel r p)
  unfolding drain
  drain-IsReal zero r buffer p room ends = absurd (omega arith)
  drain-IsReal (suc fuel) r buffer p room (false, t, e, v, ready, l) = rw (e, drain) tt
  drain-IsReal (suc fuel) r buffer p room (true, t, e, v, ready, l) =
      let shorter = l refl in
      let room' : length t.buffer < fuel = omega arith in
      rw (e, drain)
        (and_then-IsReal _ _ _
          (λ q. elim (IsReady-cases t.state t.buffer t.header_length t.payload_length t.datagram) [
            | inl ready' ↦
                drain-IsReal fuel (flush_data crc t) t.buffer q room'
                  (flush_data-Ends crc t v ready')
            | inr empty ↦
                rw ((flush_data-fault_iff crc t v).1 empty) (fault-IsReal fuel q (omega arith))
          ])
          (use_datagram-IsReal t p))

  -- On every valid stream that has a byte to look at, the fuel of the model is never what stops the
  -- handler of received bytes.
  pub handle_receive-IsReal :
      (bytes : List ℕ) (m : MainProcessComm R F)
      → IsValid crc m.stream
      → IsReady (extend bytes m.stream)
      → IsReal (handle_receive fl make_address crc wire bytes m)
  unfolding handle_receive
  handle_receive-IsReal bytes m valid ready =
      drain-IsReal _ _ (m.stream.buffer ++ bytes) m.peers (omega arith)
        (add_data-Ends crc bytes m.stream valid ready)

  fault_after :
      (bytes : List ℕ) (s t : DatagramStream) (p q : Peers R F)
      → add_data crc bytes s ≡ returned true t
      → flush_data crc t ≡ Progress.fault
      → use_datagram fl make_address crc wire t p ≡ done q
      → handle_receive fl make_address crc wire bytes (record { stream = s; peers = p }) ≡ fault
  unfolding handle_receive drain
  fault_after bytes s t p q e f used = rw (e, drain, used, drain, f) refl

  -- On a stream with an empty buffer that searches a begin sequence, bytes that end with a
  -- datagram (its frame shorter than 2 ^ 32 bytes, noise without a begin sequence in front) lead
  -- to undefined behaviour, if the use of that datagram returns: the handler flushes once more,
  -- and the stream searches its empty buffer.
  pub handle_receive-get :
      (noise : List ℕ) (d : Datagram) (header n : ℕ) (memory : Datagram) (p q : Peers R F)
      → IsClean noise
      → header_size d.payload_checksum_included + length d.payload < 2 ^ 32
      → use_datagram fl make_address crc wire (delivered crc d [] memory) p ≡ done q
      → handle_receive fl make_address crc wire
          (noise ++ (get crc d ++ []))
          (record { stream = stream begin_seq [] header n memory; peers = p })
        ≡ fault
  handle_receive-get noise d header n memory p q clean small used =
      fault_after _ _ (delivered crc d [] memory) p q
        (add_data-get crc noise d [] header n memory clean small)
        ((flush_data-fault_iff crc (delivered crc d [] memory) tt).1 (refl, refl)) used
