-- ===== src/SubProcess.antt =====
-- main.cpp, with `Connect` of main_process_comm/main_process_comm.cpp and the handlers of both sides:
-- the sub-process as a whole, with its four threads. A handler, an action of the game thread and a
-- statement of `main` are one step each.
pub mod Runners
unfoldable pub use upzp_game_process.SubProcess.Runners.*
pub mod Steps
pub mod Handling
pub mod Logic
pub mod Names
pub mod Joining
pub mod Invariant
pub mod MainSteps
pub mod TcpSteps
pub mod UdpSteps
pub mod Soundness
pub mod Boot
pub mod Silence
pub mod Conclusion
pub mod Ending
pub mod Waiting
pub mod Joined
pub mod Closing
pub mod Steering
pub mod Losing
pub mod Messages
pub mod Saying
pub mod Protocol
use Prim.Native.String.{String}
use upzp_game_process.Prelude.{
  ℕ, ◌^◌, ◌≡◌, Bool, true, false, Option, none, some, List, [], ◌∷◌, map, if◌then◌else◌,
}
use upzp_game_process.Doubles.{Doubles}
use upzp_game_process.Datagram.{Crc, Datagram}
use upzp_game_process.DatagramStream.{DatagramStream}
use upzp_game_process.SubProcessSettings.{SubProcessSettings, wrap}
use upzp_game_process.Game.{Draw, Game}
use upzp_game_process.GameLogic.{GameLogic, new_game_logic, new_game, start_game, running, act}
use upzp_game_process.Wire.{Wire}
use upzp_game_process.ClientUdp.{Endpoint}
use upzp_game_process.ClientCommunication.{
  ClientCommunication, Outcome, done, throws, blocked, fault, out_of_fuel, handle_transmit,
  get_game_status_into_transmit_buffer, handle_receive as handle_receive_udp,
}
use upzp_game_process.MainProcessComm.{
  Peers, MainProcessComm, handle_receive, game_id_message, game_finished_message,
}

-- The next statement of `main` from the first `Start` on.
pub data MainThread : Type 0 where
  starting_tcp starting_udp keeping_alive telling stopping_tcp joining_tcp stopping_udp joining_udp
        exited :
      MainThread

-- `linked` says whether the socket of the TCP side has been connected.
pub record SubProcess (R F : Type 0) : Type 0 where
  pub main : MainThread
  pub game_id : ℕ
  pub logic : GameLogic R F
  pub comm : ClientCommunication F
  pub udp : Runner
  pub stream : DatagramStream
  pub tcp : Runner
  pub linked : Bool

-- What the sub-process hands to a connected socket.
pub data Sent : Type 0 where
  to_main_process : List ℕ → Sent
  to_client : Endpoint → List ℕ → Sent

abbrev pub or_else : {A : Type 0} → A → Option A → A
or_else a none = a
or_else a (some b) = b

module _ {R F : Type 0} (fl : Doubles R F) where
  -- `main` up to `StartGame`, with the new stream of the TCP side. `bind` says whether the UDP port
  -- can be opened; its exception ends the program.
  unfoldable pub boot :
      (ℕ → Bool)
      → SubProcessSettings R
      → (ℕ → Draw R)
      → DatagramStream
      → ℕ
      → ℕ
      → Option (SubProcess R F)
  boot bind settings draw stream created now =
      let l =
        new_game fl
          (record {
            longitude = settings.start_point_longitude;
            latitude = settings.start_point_latitude;
          })
          settings.map_radius settings.map_name settings.game_id
          (wrap (2 ^ 64) settings.points_to_win) settings.point_box_spawn_period draw
          (new_game_logic created) in
      if bind settings.udp_port
      then (elim (start_game now l) [
        | none ↦ none
        | some started ↦ some (record {
          main = starting_tcp;
          game_id = settings.game_id;
          logic = started;
          comm = record { clients = []; locked = false; transmit_buffer = [] };
          udp = no_runner;
          stream = stream;
          tcp = no_runner;
          linked = false;
        })
      ])
      else none

module _ {R F : Type 0} (crc : Crc) (wire : Wire R F) (memory : Datagram) where
  abbrev pub goes_on : MainThread → SubProcess R F → List Sent → Option (SubProcess R F × List Sent)
  goes_on place p out = some (record p { main = place }, out)

  -- One statement of `main`; `none` where it waits, and at the end. On a socket that is not connected
  -- `SendGameFinished` ends with an error, which is only printed.
  unfoldable pub main_goes : MainThread → SubProcess R F → Option (SubProcess R F × List Sent)
  main_goes starting_tcp p = elim (start_runner connecting p.tcp) [
    | none ↦ none
    | some r ↦ goes_on starting_udp (record p { tcp = r }) []
  ]
  main_goes starting_udp p = elim (start_runner serving p.udp) [
    | none ↦ none
    | some r ↦ goes_on keeping_alive (record p { udp = r }) []
  ]
  main_goes keeping_alive p = goes_on (if running p.logic then keeping_alive else telling) p []
  main_goes telling p =
      goes_on stopping_tcp p
        (if p.linked then to_main_process (game_finished_message crc wire memory) ∷ [] else [])
  main_goes stopping_tcp p = goes_on joining_tcp (record p { tcp = stop_runner p.tcp }) []
  main_goes joining_tcp p = elim (join_runner p.tcp) [
    | none ↦ none
    | some r ↦ goes_on stopping_udp (record p { tcp = r }) []
  ]
  main_goes stopping_udp p = goes_on joining_udp (record p { udp = stop_runner p.udp }) []
  main_goes joining_udp p = elim (join_runner p.udp) [
    | none ↦ none
    | some r ↦ goes_on exited (record p { udp = r }) []
  ]
  main_goes exited p = none

  -- `Connect`, when the socket can be connected and when it can not.
  unfoldable pub connect : Bool → SubProcess R F → SubProcess R F × List Sent
  connect true p = (
    record p { tcp = record p.tcp { worker = serving }; linked = true },
    to_main_process (game_id_message crc wire memory p.game_id) ∷ [],
  )
  connect false p = (record p { tcp = end_runner p.tcp }, [])

module _ {R F : Type 0} where
  -- The objects that the TCP side works on.
  abbrev pub tcp_side : SubProcess R F → MainProcessComm R F
  tcp_side p = record {
    stream = p.stream;
    peers = record { comm = some p.comm; logic = some p.logic };
  }

  abbrev pub put_back : MainProcessComm R F → SubProcess R F → SubProcess R F
  put_back m p = record p {
    stream = m.stream;
    comm = or_else p.comm m.peers.comm;
    logic = or_else p.logic m.peers.logic;
  }

  -- The TCP thread behind its handler: an exception leaves `run`, and the thread ends.
  abbrev pub after_tcp : SubProcess R F → Outcome (MainProcessComm R F) → Option (SubProcess R F)
  after_tcp p (done m) = some (put_back m p)
  after_tcp p (throws m) = some (record (put_back m p) { tcp = end_runner p.tcp })
  after_tcp p blocked = some (record p { tcp = record p.tcp { worker = stuck } })
  after_tcp p fault = none
  after_tcp p out_of_fuel = none

  -- The UDP thread behind its receive handler.
  abbrev pub after_udp :
      SubProcess R F
      → Outcome (ClientCommunication F × Option (GameLogic R F))
      → Option (SubProcess R F)
  after_udp p (done (cc, l)) = some (record p { comm = cc; logic = or_else p.logic l })
  after_udp p blocked = some (record p { udp = record p.udp { worker = stuck } })
  after_udp p _ = none

module _ {R F : Type 0} (fl : Doubles R F) (make_address : String → Option String) (crc : Crc)
    (wire : Wire R F) where
  -- The handler of received bytes as one step: `LoadClients` frees the mutex of the clients between
  -- `AddClient` and `AddPlayer`, where the program's UDP thread may run a handler and here none does.
  unfoldable pub receive_tcp : List ℕ → SubProcess R F → Option (SubProcess R F)
  receive_tcp bytes p = after_tcp p (handle_receive fl make_address crc wire bytes (tcp_side p))

module _ {R F : Type 0} (crc : Crc) (wire : Wire R F) (memory : Datagram) where
  unfoldable pub receive_udp : List ℕ → ℕ → Endpoint → SubProcess R F → Option (SubProcess R F)
  receive_udp buffer size remote p =
      after_udp p (handle_receive_udp crc wire memory buffer size remote p.comm (some p.logic))

  -- The UDP thread behind the handler of its timer, which writes the buffer before it takes the
  -- mutex.
  abbrev pub after_timer :
      SubProcess R F
      → Outcome (ClientCommunication F × List (Endpoint × List ℕ) × ℕ)
      → Option (SubProcess R F × List Sent)
  after_timer p (done (cc, sends, timers)) =
      some (record p { comm = cc }, map (λ s. to_client s.0 s.1) sends)
  after_timer p blocked = some (
    record p {
      comm = get_game_status_into_transmit_buffer crc wire memory (some p.logic) p.comm;
      udp = record p.udp { worker = stuck };
    },
    [],
  )
  after_timer p _ = none

  unfoldable pub transmit_udp : SubProcess R F → Option (SubProcess R F × List Sent)
  transmit_udp p = after_timer p (handle_transmit crc wire memory (some p.logic) p.comm)
