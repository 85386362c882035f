-- ===== src/SubProcess/Closing.antt =====
-- The destructors behind the last statement of main.cpp, in their order: that of
-- main_process_comm/main_process_comm.cpp, that of client_communication/client_communication.cpp and
-- that of game_logic/game_logic.cpp.
use Prim.Native.String.{String}
use upzp_game_process.Prelude.{ℕ, ◌≡◌, refl, Bool, true, inl, inr, Bool-cases, Option, none, some}
use upzp_game_process.Doubles.{Doubles}
use upzp_game_process.Datagram.{Crc, Datagram}
use upzp_game_process.DatagramStream.{DatagramStream}
use upzp_game_process.SubProcessSettings.{SubProcessSettings}
use upzp_game_process.Game.{Draw}
use upzp_game_process.GameLogic.{no_thread, returned, GameLogic, request_stop, join}
use upzp_game_process.Wire.{Wire}
use upzp_game_process.SubProcess.{
  absent, Runner, exited, SubProcess, boot, stop_runner, join_runner,
}
use upzp_game_process.SubProcess.Steps.{Reaches}
use upzp_game_process.SubProcess.MainSteps.{OnSome-some}
use upzp_game_process.SubProcess.Boot.{tells_of_victory}
use upzp_game_process.SubProcess.Joined.{Joined, HasJoined, boot-HasJoined, Reaches-HasJoined}

-- The destructors of both sides, which call `Stop`; the thread object is destroyed behind it. `none`
-- where it waits.
unfoldable destroy_runner : Runner → Option Runner
destroy_runner r = join_runner (stop_runner r)

module _ {R F : Type 0} where
  -- That of the game logic, which calls `StopGame`.
  unfoldable destroy_logic : GameLogic R F → Option (GameLogic R F)
  destroy_logic l = join (request_stop l)

  -- All three of them, behind the last statement of `main`.
  pub destroy : SubProcess R F → Option (SubProcess R F)
  destroy p = elim (destroy_runner p.tcp) [
    | none ↦ none
    | some tcp ↦ elim (destroy_runner p.udp) [
      | none ↦ none
      | some udp ↦ elim (destroy_logic p.logic) [
        | none ↦ none
        | some logic ↦ some (record p { tcp = tcp; udp = udp; logic = logic })
      ]
    ]
  ]

idle_runner :
    (r : Runner)
    → r.worker ≡ absent
    → (s : Runner) × (destroy_runner r ≡ some s) × (s.worker ≡ absent)
unfolding destroy_runner join_runner stop_runner
idle_runner r e = elim (Bool-cases r.is_running) [
  | inl on ↦ (record r { stopped = true }, rw (on, e) refl, e)
  | inr off ↦ (r, rw (off, e) refl, e)
]

ended_logic :
    {R F : Type 0} (l : GameLogic R F)
    → l.thread ≡ returned
    → (m : GameLogic R F) × (destroy_logic l ≡ some m) × (m.thread ≡ no_thread)
unfolding destroy_logic join request_stop
ended_logic l e = (record l { terminate = true; thread = no_thread }, rw e refl, refl)

module _ {R F : Type 0} (fl : Doubles R F) (bind : ℕ → Bool) (settings : SubProcessSettings R)
    (draw : ℕ → Draw R) (stream : DatagramStream) (created now : ℕ)
    (make_address : String → Option String) (crc : Crc) (wire : Wire R F) (memory : Datagram) where
  -- Whatever is received and in whatever order the threads run from the start on, as long as no
  -- handler has undefined behaviour: where `main` has come to its end, the destructors behind it
  -- wait for no thread, and none of the three thread objects holds a thread when it is destroyed.
  pub destroy-exited :
      (p q : SubProcess R F)
      → boot fl bind settings draw stream created now ≡ some p
      → Reaches fl make_address crc wire memory p q
      → q.main ≡ exited
      → (r : SubProcess R F) × (destroy q ≡ some r)
        × (r.tcp.worker ≡ absent)
        × (r.udp.worker ≡ absent)
        × (r.logic.thread ≡ no_thread)
  unfolding destroy
  destroy-exited p q e reached at =
      let start =
        OnSome-some HasJoined (boot fl bind settings draw stream created now) p
          (boot-HasJoined fl bind settings draw stream created now) e in
      let joined : Joined exited q.tcp.worker q.udp.worker =
        rw at at (Reaches-HasJoined crc wire memory fl make_address reached start) in
      let (over, won) =
        tells_of_victory fl bind settings draw stream created now make_address crc wire memory p q e
          reached (rw at refl) in
      let (tcp, no_tcp, tcp_gone) = idle_runner q.tcp joined.0 in
      let (udp, no_udp, udp_gone) = idle_runner q.udp joined.1 in
      let (logic, no_game, logic_gone) = ended_logic q.logic over in
      (
        record q { tcp = tcp; udp = udp; logic = logic },
        rw (destroy, no_tcp, no_udp, no_game) refl,
        tcp_gone,
        udp_gone,
        logic_gone,
      )
