-- ===== src/SubProcess/TcpSteps.antt =====
-- The invariant of the sub-process under the steps of the TCP thread.
use Prim.Native.String.{String}
use upzp_game_process.Prelude.{
  ℕ, ◌≡◌, ◌≢◌, refl, ◌∙◌, sym, subst, Bool, true, false, Option, none, some, List,
}
use upzp_game_process.Doubles.{Doubles}
use upzp_game_process.Datagram.{Crc, Datagram}
use upzp_game_process.DatagramStream.{DatagramStream}
use upzp_game_process.GameLogic.{GameLogic}
use upzp_game_process.Wire.{Wire}
use upzp_game_process.ClientCommunication.{
  ClientCommunication, Outcome, done, throws, blocked, fault, out_of_fuel,
}
use upzp_game_process.MainProcessComm.{MainProcessComm, handle_receive}
use upzp_game_process.SubProcess.{
  Worker, absent, connecting, serving, ended, Runner, SubProcess, connect, end_runner, put_back,
  after_tcp, tcp_side, receive_tcp,
}
use upzp_game_process.SubProcess.Handling.{Ends, handle_receive-Ends}
use upzp_game_process.SubProcess.Joining.{Sound, SoundPeers, load_client-Ends}
use upzp_game_process.SubProcess.Invariant.{Unlocked, Knows-place, Knows-tcp, IsSound}
use upzp_game_process.SubProcess.MainSteps.{OnSome, OnSome-some}

-- A TCP thread at work is there.
there : {w : Worker} → w ≡ serving → w ≢ absent
there e f = cc

module _ {R F : Type 0} (fl : Doubles R F) (created : ℕ) where
  pub connect-IsSound :
      (crc : Crc) (wire : Wire R F) (memory : Datagram) (up : Bool) (p : SubProcess R F)
      → p.tcp.worker ≡ connecting
      → IsSound fl created p
      → IsSound fl created (connect crc wire memory up p).0
  unfolding connect
  connect-IsSound crc wire memory true p e k = record {
    played = k.played;
    named = k.named;
    mutex = subst (λ (w : Worker). Unlocked w p.comm.locked) e k.mutex;
    main_place =
        Knows-tcp p.main p.logic.thread p.tcp.worker serving p.comm.locked p.comm.locked (λ f. cc)
          k.main_place;
  }
  connect-IsSound crc wire memory false p e k = record {
    played = k.played;
    named = k.named;
    mutex = tt;
    main_place =
        Knows-tcp p.main p.logic.thread p.tcp.worker ended p.comm.locked p.comm.locked (λ f. cc)
          k.main_place;
  }

  pub closes-IsSound :
      (p : SubProcess R F)
      → p.tcp.worker ≡ serving
      → IsSound fl created p
      → IsSound fl created (record p { tcp = end_runner p.tcp })
  closes-IsSound p e k = record {
    played = k.played;
    named = k.named;
    mutex = tt;
    main_place =
        Knows-tcp p.main p.logic.thread p.tcp.worker ended p.comm.locked p.comm.locked (there e)
          k.main_place;
  }

  -- The objects of the TCP side, put back behind its handler.
  put_back_at :
      (p : SubProcess R F) (stream : DatagramStream) (locked : Bool) (runner : Runner)
      → (comm : Option (ClientCommunication F)) (logic : Option (GameLogic R F))
      → p.tcp.worker ≡ serving
      → Unlocked runner.worker locked
      → IsSound fl created p
      → Sound fl created locked p.logic.thread comm logic
      → IsSound fl created
          (record (put_back
            (record { stream = stream; peers = record { comm = comm; logic = logic } })
            p) { tcp = runner })
  put_back_at p stream locked runner none logic e u k s = absurd s
  put_back_at p stream locked runner (some comm) none e u k s = absurd s
  put_back_at p stream locked runner (some comm) (some l) e u k (lock, at, played, named) = record {
    played = played;
    named = named;
    mutex = subst (Unlocked runner.worker) (sym lock) u;
    main_place =
        Knows-place p.main p.logic.thread l.thread runner.worker comm.locked (λ f. at ∙ f)
          (Knows-tcp p.main p.logic.thread p.tcp.worker runner.worker p.comm.locked comm.locked
            (there e) k.main_place);
  }

  after_tcp-IsSound :
      (p : SubProcess R F) (o : Outcome (MainProcessComm R F))
      → p.tcp.worker ≡ serving
      → IsSound fl created p
      → Ends
          (λ (m : MainProcessComm R F). SoundPeers fl created false p.logic.thread m.peers)
          (λ (m : MainProcessComm R F). SoundPeers fl created true p.logic.thread m.peers)
          o
      → OnSome (IsSound fl created) (after_tcp p o)
  after_tcp-IsSound p (done m) e k s =
      put_back_at p m.stream false p.tcp m.peers.comm m.peers.logic e
        (subst (λ (w : Worker). Unlocked w false) (sym e) refl) k s
  after_tcp-IsSound p (throws m) e k s =
      put_back_at p m.stream true (end_runner p.tcp) m.peers.comm m.peers.logic e tt k s
  after_tcp-IsSound p blocked e k s = absurd s
  after_tcp-IsSound p fault e k s = tt
  after_tcp-IsSound p out_of_fuel e k s = tt

  pub receive_tcp-IsSound :
      (make_address : String → Option String) (crc : Crc) (wire : Wire R F) (bytes : List ℕ)
      → (p q : SubProcess R F) → p.tcp.worker ≡ serving
      → IsSound fl created p
      → receive_tcp fl make_address crc wire bytes p ≡ some q
      → IsSound fl created q
  unfolding receive_tcp
  receive_tcp-IsSound make_address crc wire bytes p q e k received =
      let free : p.comm.locked ≡ false =
        subst (λ (w : Worker). Unlocked w p.comm.locked) e k.mutex in
      let ends =
        handle_receive-Ends fl make_address (SoundPeers fl created false p.logic.thread)
          (SoundPeers fl created true p.logic.thread)
          (load_client-Ends fl created make_address p.logic.thread) crc wire bytes (tcp_side p)
          (free, refl, k.played, k.named) in
      OnSome-some (IsSound fl created) (receive_tcp fl make_address crc wire bytes p) q
        (after_tcp-IsSound p (handle_receive fl make_address crc wire bytes (tcp_side p)) e k ends)
        received
