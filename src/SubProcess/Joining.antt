-- ===== src/SubProcess/Joining.antt =====
-- What a new client does to the two sides together.
use Prim.Native.String.{String}
use upzp_game_process.Prelude.{
  ℕ, ◌≡◌, refl, All-append, inl, inr, Bool, true, false, Option, none, some, [], ◌∷◌, arith,
  Option-cases,
}
use upzp_game_process.Doubles.{Doubles}
use upzp_game_process.Client.{Client}
use upzp_game_process.GameLogic.{Thread, GameLogic, add_player}
use upzp_game_process.ClientUdp.{ClientUdp, new_client_udp}
use upzp_game_process.ClientCommunication.{
  ClientCommunication, add_client, add_clients, emplace_all,
}
use upzp_game_process.MainProcessComm.{Peers, load_client}
use upzp_game_process.SubProcess.Handling.{Ends}
use upzp_game_process.SubProcess.Logic.{IsPlayed, add_player-IsPlayed}
use upzp_game_process.SubProcess.Names.{Named}

module _ {R F : Type 0} (fl : Doubles R F) where
  pub new_client_udp-named :
      (make_address : String → Option String) (c : Client) (u : ClientUdp F)
      → new_client_udp fl make_address c ≡ some u
      → u.input.id ≡ u.client.id
  unfolding new_client_udp
  new_client_udp-named make_address c u e = elim (Option-cases (make_address c.ip_v4)) [
    | inl h ↦ absurd (ground (arith, h))
    | inr (a, h) ↦ ground (arith, h)
  ]

  module _ (created : ℕ) where
    -- The two objects behind the pointers of the TCP side, with the mutex as given and the game thread
    -- at this place.
    abbrev pub Sound :
        Bool → Thread → Option (ClientCommunication F) → Option (GameLogic R F) → Type 0
    Sound locked place (some comm) (some l) =
        (comm.locked ≡ locked) × (l.thread ≡ place) × IsPlayed fl created l × Named comm.clients
    Sound locked place _ _ = ⊥

    abbrev pub SoundPeers : Bool → Thread → Peers R F → Type 0
    SoundPeers locked place p = Sound locked place p.comm p.logic

    load_into-Ends :
        (make_address : String → Option String) (place : Thread) (red : Bool) (c : Client)
        → (comm : Option (ClientCommunication F)) (logic : Option (GameLogic R F))
        → Sound false place comm logic
        → Ends
            (SoundPeers false place)
            (SoundPeers true place)
            (load_client fl make_address red c (record { comm = comm; logic = logic }))
    unfolding load_client add_client add_clients emplace_all add_player
    load_into-Ends make_address place red c none logic k = absurd k
    load_into-Ends make_address place red c (some comm) none k = absurd k
    load_into-Ends make_address place red c (some comm) (some l) (free, at, played, named) =
        elim (Option-cases (new_client_udp fl make_address c)) [
          | inl e ↦ rw (free, e, emplace_all) (refl, at, played, named)
          | inr (u, e) ↦
              rw (free, e, emplace_all)
                (
                  refl,
                  at,
                  add_player-IsPlayed fl created c red l played,
                  All-append (λ x. x.input.id ≡ x.client.id) comm.clients (u ∷ []) named
                      (new_client_udp-named make_address c u e, tt),
                )
        ]

    pub load_client-Ends :
        (make_address : String → Option String) (place : Thread) (red : Bool) (c : Client)
        → (p : Peers R F) → SoundPeers false place p
        → Ends
            (SoundPeers false place)
            (SoundPeers true place)
            (load_client fl make_address red c p)
    load_client-Ends make_address place red c p k =
        load_into-Ends make_address place red c p.comm p.logic k
