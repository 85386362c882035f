-- ===== src/MainProcessComm/Finishing.antt =====
-- The receive handler of main_process_comm/main_process_comm.cpp with the mutex of the clients free.
use Prim.Native.String.{String}
use upzp_game_process.Prelude.{
  ℕ, ◌≡◌, refl, inl, inr, true, false, Bool, Option, none, some, List, Option-cases,
}
use upzp_game_process.Doubles.{Doubles}
use upzp_game_process.Client.{Client}
use upzp_game_process.Datagram.{Crc}
use upzp_game_process.DatagramStream.Invariant.{IsValid, IsReady}
use upzp_game_process.DatagramStream.Extension.{extend}
use upzp_game_process.GameLogic.{GameLogic}
use upzp_game_process.Wire.{Wire}
use upzp_game_process.ClientUdp.{new_client_udp}
use upzp_game_process.ClientCommunication.{
  ClientCommunication, Outcome, done, throws, blocked, fault, out_of_fuel, add_client, add_clients,
  emplace_all,
}
use upzp_game_process.MainProcessComm.{Peers, MainProcessComm, load_client, handle_receive}
use upzp_game_process.MainProcessComm.Receive.{IsReal, handle_receive-IsReal}
use upzp_game_process.SubProcess.Handling.{Ends, handle_receive-Ends}

module _ {F : Type 0} where
  -- The mutex behind the pointer to the UDP side is free, and it is held.
  abbrev pub Free : Option (ClientCommunication F) → Type 0
  Free none = Unit
  Free (some comm) = comm.locked ≡ false

  abbrev pub Held : Option (ClientCommunication F) → Type 0
  Held none = ⊥
  Held (some comm) = comm.locked ≡ true

module _ {R F : Type 0} where
  -- The handler returns with the mutex free, it throws with the mutex held, or it has undefined
  -- behaviour.
  abbrev pub Finishes : Outcome (MainProcessComm R F) → Type 0
  Finishes (done m) = Free m.peers.comm
  Finishes (throws m) = Held m.peers.comm
  Finishes fault = Unit
  Finishes blocked = ⊥
  Finishes out_of_fuel = ⊥

  real_end :
      (o : Outcome (MainProcessComm R F))
      → IsReal o
      → Ends
          (λ (m : MainProcessComm R F). Free m.peers.comm)
          (λ (m : MainProcessComm R F). Held m.peers.comm)
          o
      → Finishes o
  real_end (done m) r k = k
  real_end (throws m) r k = k
  real_end blocked r k = absurd k
  real_end fault r k = tt
  real_end out_of_fuel r k = absurd r

module _ {R F : Type 0} (fl : Doubles R F) (make_address : String → Option String) where
  pub load_into-Ends :
      (red : Bool) (c : Client) (comm : Option (ClientCommunication F))
      → (logic : Option (GameLogic R F)) → Free comm
      → Ends
          (λ (p : Peers R F). Free p.comm)
          (λ (p : Peers R F). Held p.comm)
          (load_client fl make_address red c (record { comm = comm; logic = logic }))
  unfolding load_client add_client add_clients emplace_all
  load_into-Ends red c none logic k = tt
  load_into-Ends red c (some comm) logic k =
      elim (Option-cases (new_client_udp fl make_address c)) [
        | inl e ↦ rw (k, e, emplace_all) refl
        | inr (u, e) ↦ rw (k, e, emplace_all) refl
      ]

  -- On every valid stream that has a byte to look at, with the mutex free, the handler of received
  -- bytes does not wait for ever and the model's fuel does not stop it: it returns with the mutex free
  -- again, it throws with the mutex held, or it has undefined behaviour.
  pub handle_receive-Finishes :
      (crc : Crc) (wire : Wire R F) (bytes : List ℕ) (m : MainProcessComm R F)
      → IsValid crc m.stream
      → IsReady (extend bytes m.stream)
      → Free m.peers.comm
      → Finishes (handle_receive fl make_address crc wire bytes m)
  handle_receive-Finishes crc wire bytes m valid ready free =
      real_end (handle_receive fl make_address crc wire bytes m)
        (handle_receive-IsReal fl make_address crc wire bytes m valid ready)
        (handle_receive-Ends fl make_address (λ (p : Peers R F). Free p.comm)
          (λ (p : Peers R F). Held p.comm) (λ red c p. load_into-Ends red c p.comm p.logic) crc wire
          bytes m free)
