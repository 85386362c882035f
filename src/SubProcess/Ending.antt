-- ===== src/SubProcess/Ending.antt =====
-- How main.cpp comes to its end.
use Prim.Native.String.{String}
use upzp_game_process.Prelude.{◌≡◌, refl, subst, true, false, Option, []}
use upzp_game_process.Doubles.{Doubles}
use upzp_game_process.Datagram.{Crc, Datagram}
use upzp_game_process.GameLogic.{running}
use upzp_game_process.Wire.{Wire}
use upzp_game_process.SubProcess.{
  absent, serving, Runner, SubProcess, MainThread, keeping_alive, telling, stopping_tcp,
  joining_tcp, stopping_udp, joining_udp, exited, end_runner, main_goes, stop_runner, join_runner,
}
use upzp_game_process.SubProcess.Steps.{goes, closes, ends, Reaches, here, next}

-- `Start` has been called and `Stop` has not, and both have.
abbrev pub at_work : Runner
at_work = record { is_running = true; worker = serving; stopped = false }

abbrev pub at_end : Runner
at_end = record { is_running = false; worker = absent; stopped = true }

module _ {R F : Type 0} (crc : Crc) (wire : Wire R F) (memory : Datagram) (fl : Doubles R F)
    (make_address : String → Option String) where
  abbrev pub stopped_at : MainThread → Runner → Runner → SubProcess R F → SubProcess R F
  stopped_at place tcp udp p = record p { main = place; tcp = tcp; udp = udp }

  pub exits_at :
      (p : SubProcess R F)
      → running p.logic ≡ false
      → Reaches fl make_address crc wire memory
          (stopped_at keeping_alive at_work at_work p)
          (stopped_at exited at_end at_end p)
  unfolding main_goes stop_runner join_runner
  exits_at p over =
      let stopping = record at_work { stopped = true } in
      let stopped = end_runner stopping in
      next {q = stopped_at joining_udp at_end stopped p}
        (next {q = stopped_at joining_udp at_end stopping p}
          (next {q = stopped_at stopping_udp at_end at_work p}
            (next {q = stopped_at joining_tcp stopped at_work p}
              (next {q = stopped_at joining_tcp stopping at_work p}
                (next {q = stopped_at stopping_tcp at_work at_work p}
                  (next {q = stopped_at telling at_work at_work p}
                    (next {out = []} here (goes (rw (main_goes, over) refl))) (goes refl))
                  (goes refl))
                (closes refl))
              (goes refl))
            (goes refl))
          (ends refl refl))
        (goes refl)

  -- From any state in which `main` waits for the end of the game, the game thread has ended and
  -- both sides run handlers, there is an order of steps in which `main` comes to its end, with
  -- the threads of both sides joined.
  pub main_exits :
      (p : SubProcess R F)
      → p.main ≡ keeping_alive
      → running p.logic ≡ false
      → p.tcp ≡ at_work
      → p.udp ≡ at_work
      → (q : SubProcess R F) × Reaches fl make_address crc wire memory p q
        × (q.main ≡ exited)
        × (q.tcp.worker ≡ absent)
        × (q.udp.worker ≡ absent)
  main_exits p at over tcp udp =
      let same : stopped_at keeping_alive at_work at_work p ≡ p = rw (at, tcp, udp) refl in
      (
        stopped_at exited at_end at_end p,
        subst
            (λ (x : SubProcess R F).
              Reaches fl make_address crc wire memory x (stopped_at exited at_end at_end p))
            same (exits_at p over),
        refl,
        refl,
        refl,
      )
