-- ===== src/ClientCommunication/Locking.antt =====
-- The mutex over the clients, which no guard object unlocks.
use Prim.Native.String.{String}
use upzp_game_process.Prelude.{
  ℕ, ◌≡◌, ◌∙◌, if◌then◌else◌, refl, ap, Bool, true, false, Option, none, some, List, [], ◌∷◌, ◌++◌,
  append_assoc, append-nil,
}
use upzp_game_process.Doubles.{Doubles}
use upzp_game_process.Datagram.{Crc, Datagram}
use upzp_game_process.Client.{Client}
use upzp_game_process.GameLogic.{GameLogic}
use upzp_game_process.Wire.{Wire}
use upzp_game_process.ClientUdp.{ClientUdp, Endpoint, new_client_udp}
use upzp_game_process.ClientCommunication.{
  ClientCommunication, done, throws, blocked, handle_receive, handle_transmit, emplace_all,
  add_clients,
}

module _ {R F : Type 0} (fl : Doubles R F) (make_address : String → Option String) where
  -- The UDP clients that the constructor makes of these clients.
  abbrev pub Made : List Client → List (ClientUdp F) → Type 0
  Made [] [] = Unit
  Made (c ∷ cs) (u ∷ us) = (new_client_udp fl make_address c ≡ some u) × Made cs us
  Made _ _ = ⊥

  add_clients_free :
      (cs : List Client) (comm : ClientCommunication F)
      → comm.locked ≡ false
      → add_clients fl make_address cs comm ≡ emplace_all fl make_address cs comm
  unfolding add_clients
  add_clients_free cs comm free =
      ap (λ (b : Bool). if b then blocked else emplace_all fl make_address cs comm) free

  emplace_all-Made :
      (cs : List Client) (us : List (ClientUdp F)) (comm : ClientCommunication F)
      → Made cs us
      → emplace_all fl make_address cs comm
        ≡ done (record comm { clients = comm.clients ++ us; locked = false })
  unfolding emplace_all
  emplace_all-Made [] [] comm made = rw append-nil
  emplace_all-Made [] (u ∷ us) comm made = absurd made
  emplace_all-Made (c ∷ cs) [] comm made = absurd made
  emplace_all-Made (c ∷ cs) (u ∷ us) comm made =
      rw (made.0, emplace_all)
        (rw append_assoc at
          (emplace_all-Made cs us (record comm { clients = comm.clients ++ (u ∷ []) }) made.1))

  -- `AddClient` with the mutex free, on clients whose addresses are all good, puts them behind
  -- those that are there, in their order, and leaves the mutex free.
  pub add_clients-Made :
      (cs : List Client) (us : List (ClientUdp F)) (comm : ClientCommunication F)
      → comm.locked ≡ false
      → Made cs us
      → add_clients fl make_address cs comm
        ≡ done (record comm { clients = comm.clients ++ us; locked = false })
  add_clients-Made cs us comm free made =
      add_clients_free cs comm free ∙ emplace_all-Made cs us comm made

  emplace_all_throws :
      (good : List Client) (us : List (ClientUdp F)) (bad : Client) (rest : List Client)
      → (comm : ClientCommunication F) → Made good us
      → new_client_udp fl make_address bad ≡ none
      → emplace_all fl make_address (good ++ (bad ∷ rest)) comm
        ≡ throws (record comm { clients = comm.clients ++ us; locked = true })
  unfolding emplace_all
  emplace_all_throws [] [] bad rest comm made e = rw (e, emplace_all, append-nil)
  emplace_all_throws [] (u ∷ us) bad rest comm made e = absurd made
  emplace_all_throws (c ∷ cs) [] bad rest comm made e = absurd made
  emplace_all_throws (c ∷ cs) (u ∷ us) bad rest comm made e =
      rw (made.0, emplace_all)
        (rw append_assoc at (
          emplace_all_throws cs us bad rest (record comm { clients = comm.clients ++ (u ∷ []) })
            made.1 e))

  -- With the mutex free, the first address that `make_address` refuses makes `AddClient` throw
  -- with the mutex still locked; after that neither `AddClient` nor the receive handler nor the
  -- transmit handler comes to an end.
  pub add_clients_deadlock :
      (crc : Crc) (wire : Wire R F) (memory : Datagram) (good : List Client)
      → (us : List (ClientUdp F)) (bad : Client) (rest : List Client)
      → (comm : ClientCommunication F) → comm.locked ≡ false
      → Made good us
      → new_client_udp fl make_address bad ≡ none
      → (after : ClientCommunication F) × (add_clients fl make_address (good ++ (bad ∷ rest)) comm
          ≡ throws after)
        × ((cs : List Client) → add_clients fl make_address cs after ≡ blocked)
        × ((buffer : List ℕ) (size : ℕ) (remote : Endpoint) (logic : Option (GameLogic R F))
            → handle_receive crc wire memory buffer size remote after logic ≡ blocked)
        × ((logic : Option (GameLogic R F)) → handle_transmit crc wire memory logic after ≡ blocked)
  unfolding add_clients handle_receive handle_transmit
  add_clients_deadlock crc wire memory good us bad rest comm free made e = (
    record comm { clients = comm.clients ++ us; locked = true },
    add_clients_free (good ++ (bad ∷ rest)) comm free
        ∙ emplace_all_throws good us bad rest comm made e,
    λ cs. refl,
    λ buffer size remote logic. refl,
    λ logic. refl,
  )
