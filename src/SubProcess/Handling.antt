-- ===== src/SubProcess/Handling.antt =====
-- What the receive handler of main_process_comm/main_process_comm.cpp keeps, whatever it receives.
use Prim.Native.String.{String}
use upzp_game_process.Prelude.{
  ℕ, zero, suc, inl, inr, Bool, true, false, Option, none, some, List, [], ◌∷◌, ◌==◌, Bool-cases,
  Option-cases,
}
use upzp_game_process.Doubles.{Doubles}
use upzp_game_process.Datagram.{Crc, payload_correctness}
use upzp_game_process.DatagramStream.{DatagramStream, Progress, returned, again, flush_data}
use upzp_game_process.Client.{Client}
use upzp_game_process.Wire.{Wire, FClient, FTeam, FGame}
use upzp_game_process.ClientCommunication.{
  Outcome, done, throws, blocked, fault, out_of_fuel, and_then,
}
use upzp_game_process.MainProcessComm.{
  Peers, MainProcessComm, load_client, load_team, load_clients_of, load_teams, load_game,
  read_client, game_clients_version, use_datagram, load_clients, drain, handle_receive,
}

-- An operation that does not wait for ever, with what holds when it returns and when it throws.
abbrev pub Ends : {A : Type 0} → (A → Type 0) → (A → Type 0) → Outcome A → Type 0
Ends good bad (done a) = good a
Ends good bad (throws a) = bad a
Ends good bad blocked = ⊥
Ends good bad fault = Unit
Ends good bad out_of_fuel = Unit

pub and_then-Ends :
    {A B : Type 0} (good bad : A → Type 0) (good' bad' : B → Type 0) (run : A → Outcome B)
    → (place : A → B) (m : Outcome A) → ((a : A) → good a → Ends good' bad' (run a))
    → ((a : A) → bad a → bad' (place a))
    → Ends good bad m
    → Ends good' bad' (and_then run place m)
and_then-Ends good bad good' bad' run place (done a) h k e = h a e
and_then-Ends good bad good' bad' run place (throws a) h k e = k a e
and_then-Ends good bad good' bad' run place blocked h k e = e
and_then-Ends good bad good' bad' run place fault h k e = tt
and_then-Ends good bad good' bad' run place out_of_fuel h k e = tt

module _ {R F : Type 0} (fl : Doubles R F) (make_address : String → Option String)
    (good bad : Peers R F → Type 0)
    (load_client-Ends : (red : Bool) (c : Client) (p : Peers R F)
      → good p
      → Ends good bad (load_client fl make_address red c p)) where
  load_team-Ends :
      (red : Bool) (fs : List FClient) (p : Peers R F)
      → good p
      → Ends good bad (load_team fl make_address red fs p)
  unfolding load_team
  load_team-Ends red [] p k = k
  load_team-Ends red (f ∷ fs) p k = elim (Option-cases (read_client f)) [
    | inl e ↦ rw (e, load_team) tt
    | inr (c, e) ↦
        rw (e, load_team)
          (and_then-Ends good bad good bad _ _ _ (load_team-Ends red fs) (λ q h. h)
            (load_client-Ends red c p k))
  ]

  of_clients-Ends :
      (red : Bool) (fs : Option (List FClient)) (p : Peers R F)
      → good p
      → Ends good bad (load_clients_of fl make_address red (record { clients = fs }) p)
  of_clients-Ends red none p k = tt
  of_clients-Ends red (some fs) p k = load_team-Ends red fs p k

  load_teams-Ends :
      (ts : List FTeam) (p : Peers R F) → good p → Ends good bad (load_teams fl make_address ts p)
  unfolding load_teams
  load_teams-Ends [] p k = k
  load_teams-Ends (red ∷ []) p k = k
  load_teams-Ends (red ∷ (blue ∷ more)) p k =
      and_then-Ends good bad good bad _ _ _ (of_clients-Ends false blue.clients) (λ q h. h)
        (of_clients-Ends true red.clients p k)

  load_game-Ends :
      (g : Option FGame) (p : Peers R F) → good p → Ends good bad (load_game fl make_address g p)
  load_game-Ends none p k = tt
  load_game-Ends (some g) p k = elim (Option-cases g.teams) [
    | inl e ↦ rw e tt
    | inr (ts, e) ↦ rw e (load_teams-Ends ts p k)
  ]

  module _ (crc : Crc) (wire : Wire R F) where
    use_datagram-Ends :
        (s : DatagramStream) (p : Peers R F)
        → good p
        → Ends good bad (use_datagram fl make_address crc wire s p)
    unfolding use_datagram load_clients
    use_datagram-Ends s p k = elim (Bool-cases (payload_correctness crc s.datagram)) [
      | inl e ↦ elim (Bool-cases (s.datagram.version == game_clients_version)) [
        | inl v ↦ simp (e, v) (load_game-Ends (wire.get_game s.datagram.payload) p k)
        | inr v ↦ simp (e, v) k
      ]
      | inr e ↦ simp e k
    ]

    drain-Ends :
        (fuel : ℕ) (r : Progress) (p : Peers R F)
        → good p
        → Ends
            (λ (m : MainProcessComm R F). good m.peers)
            (λ (m : MainProcessComm R F). bad m.peers)
            (drain fl make_address crc wire fuel r p)
    unfolding drain
    drain-Ends zero r p k = tt
    drain-Ends (suc fuel) Progress.fault p k = tt
    drain-Ends (suc fuel) (again s) p k = tt
    drain-Ends (suc fuel) (returned false s) p k = k
    drain-Ends (suc fuel) (returned true s) p k =
        and_then-Ends good bad (λ (m : MainProcessComm R F). good m.peers)
          (λ (m : MainProcessComm R F). bad m.peers) _ _ _
          (λ q h. drain-Ends fuel (flush_data crc s) q h) (λ q h. h) (use_datagram-Ends s p k)

    pub handle_receive-Ends :
        (bytes : List ℕ) (m : MainProcessComm R F)
        → good m.peers
        → Ends
            (λ (n : MainProcessComm R F). good n.peers)
            (λ (n : MainProcessComm R F). bad n.peers)
            (handle_receive fl make_address crc wire bytes m)
    unfolding handle_receive
    handle_receive-Ends bytes m k = drain-Ends _ _ m.peers k
