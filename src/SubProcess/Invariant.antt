-- ===== src/SubProcess/Invariant.antt =====
-- What holds of the sub-process between two steps.
use upzp_game_process.Prelude.{◌≡◌, ◌≢◌, Bool, false, ℕ}
use upzp_game_process.Doubles.{Doubles}
use upzp_game_process.GameLogic.{Thread, returned}
use upzp_game_process.SubProcess.{
  Worker, absent, connecting, serving, stuck, ended, MainThread, starting_tcp, starting_udp,
  keeping_alive, telling, stopping_tcp, joining_tcp, stopping_udp, joining_udp, exited, SubProcess,
}
use upzp_game_process.SubProcess.Logic.{IsPlayed}
use upzp_game_process.SubProcess.Names.{Named}

-- Where the TCP thread runs, the mutex is free between two steps.
abbrev pub Unlocked : Worker → Bool → Type 0
Unlocked absent locked = Unit
Unlocked connecting locked = locked ≡ false
Unlocked serving locked = locked ≡ false
Unlocked stuck locked = ⊥
Unlocked ended locked = Unit

-- What `main` may rely on where it stands: the place of the game thread, that of the TCP thread, and
-- the mutex.
abbrev pub Knows : MainThread → Thread → Worker → Bool → Type 0
Knows starting_tcp place tcp locked = (tcp ≡ absent) × (locked ≡ false)
Knows starting_udp place tcp locked = Unit
Knows keeping_alive place tcp locked = Unit
Knows telling place tcp locked = place ≡ returned
Knows stopping_tcp place tcp locked = place ≡ returned
Knows joining_tcp place tcp locked = place ≡ returned
Knows stopping_udp place tcp locked = place ≡ returned
Knows joining_udp place tcp locked = place ≡ returned
Knows exited place tcp locked = place ≡ returned

-- Another place of the game thread, which stays where it has ended.
pub Knows-place :
    (main : MainThread) (place place' : Thread) (tcp : Worker) (locked : Bool)
    → (place ≡ returned → place' ≡ returned)
    → Knows main place tcp locked
    → Knows main place' tcp locked
Knows-place starting_tcp place place' tcp locked keep k = k
Knows-place starting_udp place place' tcp locked keep k = k
Knows-place keeping_alive place place' tcp locked keep k = k
Knows-place telling place place' tcp locked keep k = keep k
Knows-place stopping_tcp place place' tcp locked keep k = keep k
Knows-place joining_tcp place place' tcp locked keep k = keep k
Knows-place stopping_udp place place' tcp locked keep k = keep k
Knows-place joining_udp place place' tcp locked keep k = keep k
Knows-place exited place place' tcp locked keep k = keep k

-- Another place of a TCP thread that is there, and another state of the mutex.
pub Knows-tcp :
    (main : MainThread) (place : Thread) (tcp tcp' : Worker) (locked locked' : Bool)
    → tcp ≢ absent
    → Knows main place tcp locked
    → Knows main place tcp' locked'
Knows-tcp starting_tcp place tcp tcp' locked locked' there k = absurd (there k.0)
Knows-tcp starting_udp place tcp tcp' locked locked' there k = tt
Knows-tcp keeping_alive place tcp tcp' locked locked' there k = tt
Knows-tcp telling place tcp tcp' locked locked' there k = k
Knows-tcp stopping_tcp place tcp tcp' locked locked' there k = k
Knows-tcp joining_tcp place tcp tcp' locked locked' there k = k
Knows-tcp stopping_udp place tcp tcp' locked locked' there k = k
Knows-tcp joining_udp place tcp tcp' locked locked' there k = k
Knows-tcp exited place tcp tcp' locked locked' there k = k

-- The invariant of the whole, with the clock value at which the game logic was made.
pub record IsSound {R F : Type 0} (fl : Doubles R F) (created : ℕ) (p : SubProcess R F)
    : Type 0 where
  pub played : IsPlayed fl created p.logic
  pub named : Named p.comm.clients
  pub mutex : Unlocked p.tcp.worker p.comm.locked
  pub main_place : Knows p.main p.logic.thread p.tcp.worker p.comm.locked
