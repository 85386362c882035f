-- ===== src/SubProcess/Steps.antt =====
-- Every order in which the threads of the sub-process can come to their steps.
use Prim.Native.String.{String}
use upzp_game_process.Prelude.{ℕ, ◌≡◌, Bool, true, false, Option, some, List, []}
use upzp_game_process.Doubles.{Doubles}
use upzp_game_process.Datagram.{Crc, Datagram}
use upzp_game_process.Game.{Game}
use upzp_game_process.GameLogic.{act}
use upzp_game_process.Wire.{Wire}
use upzp_game_process.ClientUdp.{Endpoint}
use upzp_game_process.SubProcess.{
  connecting, serving, stuck, SubProcess, Sent, main_goes, connect, end_runner, receive_tcp,
  receive_udp, transmit_udp,
}

module _ {R F : Type 0} (fl : Doubles R F) (make_address : String → Option String) (crc : Crc)
    (wire : Wire R F) (memory : Datagram) where
  -- One step of one of the threads. The TCP side ends when the connection does or when it is
  -- stopped, the UDP side when it is stopped. A thread that waits for the mutex goes on when it is free,
  -- and the handler that waited is then one of those that it can run.
  pub data Step (p : SubProcess R F) : SubProcess R F → List Sent → Type 0 where
    goes :
        {q : SubProcess R F} {out : List Sent}
        → main_goes crc wire memory p.main p ≡ some (q, out)
        → Step p q out
    acts :
        (now reached : ℕ) (g : Game R F)
        → p.logic.game ≡ some g
        → Step p (record p { logic = (act fl now reached p.logic.thread g p.logic).0 }) []
    connects :
        (up : Bool)
        → p.tcp.worker ≡ connecting
        → Step p (connect crc wire memory up p).0 (connect crc wire memory up p).1
    receives :
        {q : SubProcess R F} (bytes : List ℕ)
        → p.tcp.worker ≡ serving
        → receive_tcp fl make_address crc wire bytes p ≡ some q
        → Step p q []
    closes : p.tcp.worker ≡ serving → Step p (record p { tcp = end_runner p.tcp }) []
    hears :
        {q : SubProcess R F} (buffer : List ℕ) (size : ℕ) (remote : Endpoint)
        → p.udp.worker ≡ serving
        → receive_udp crc wire memory buffer size remote p ≡ some q
        → Step p q []
    transmits :
        {q : SubProcess R F} {out : List Sent}
        → p.udp.worker ≡ serving
        → transmit_udp crc wire memory p ≡ some (q, out)
        → Step p q out
    ends :
        p.udp.worker ≡ serving
        → p.udp.stopped ≡ true
        → Step p (record p { udp = end_runner p.udp }) []
    wakes_tcp :
        p.tcp.worker ≡ stuck
        → p.comm.locked ≡ false
        → Step p (record p { tcp = record p.tcp { worker = serving } }) []
    wakes_udp :
        p.udp.worker ≡ stuck
        → p.comm.locked ≡ false
        → Step p (record p { udp = record p.udp { worker = serving } }) []

  pub data Reaches (p : SubProcess R F) : SubProcess R F → Type 0 where
    here : Reaches p p
    next : {q r : SubProcess R F} {out : List Sent} → Reaches p q → Step q r out → Reaches p r
