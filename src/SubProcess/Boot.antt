-- ===== src/SubProcess/Boot.antt =====
-- The sub-process from the start of main.cpp on.
use Prim.Native.String.{String}
use upzp_game_process.Prelude.{
  ℕ, ◌≡◌, refl, subst, inl, inr, Bool, true, false, Option, some, Bool-cases,
}
use upzp_game_process.Doubles.{Doubles}
use upzp_game_process.Datagram.{Crc, Datagram}
use upzp_game_process.DatagramStream.{DatagramStream}
use upzp_game_process.SubProcessSettings.{SubProcessSettings}
use upzp_game_process.Game.{Draw}
use upzp_game_process.GameLogic.{Thread, returned, new_game_logic, new_game, start_game}
use upzp_game_process.GameLogic.Threads.{WonGame}
use upzp_game_process.GameLogic.Steps as Moves
use upzp_game_process.Wire.{Wire}
use upzp_game_process.SubProcess.{
  Worker, MainThread, starting_tcp, starting_udp, keeping_alive, telling, stopping_tcp, joining_tcp,
  stopping_udp, joining_udp, exited, SubProcess, boot,
}
use upzp_game_process.SubProcess.Steps.{Reaches}
use upzp_game_process.SubProcess.Logic.{Over}
use upzp_game_process.SubProcess.Invariant.{Knows, IsSound}
use upzp_game_process.SubProcess.MainSteps.{OnSome, OnSome-some}
use upzp_game_process.SubProcess.Soundness.{Reaches-IsSound}

-- `main` has left the loop that waits for the end of the game.
abbrev pub left_loop : MainThread → Bool
left_loop starting_tcp = false
left_loop starting_udp = false
left_loop keeping_alive = false
left_loop _ = true

Knows-returned :
    (main : MainThread) (place : Thread) (tcp : Worker) (locked : Bool)
    → Knows main place tcp locked
    → left_loop main ≡ true
    → place ≡ returned
Knows-returned starting_tcp place tcp locked k e = cc
Knows-returned starting_udp place tcp locked k e = cc
Knows-returned keeping_alive place tcp locked k e = cc
Knows-returned telling place tcp locked k e = k
Knows-returned stopping_tcp place tcp locked k e = k
Knows-returned joining_tcp place tcp locked k e = k
Knows-returned stopping_udp place tcp locked k e = k
Knows-returned joining_udp place tcp locked k e = k
Knows-returned exited place tcp locked k e = k

module _ {R F : Type 0} (fl : Doubles R F) (bind : ℕ → Bool) (settings : SubProcessSettings R)
    (draw : ℕ → Draw R) (stream : DatagramStream) (created now : ℕ) where
  boot_made :
      OnSome (IsSound {R = R} {F = F} fl created) (boot fl bind settings draw stream created now)
  unfolding boot start_game new_game new_game_logic
  boot_made = elim (Bool-cases (bind settings.udp_port)) [
    | inl e ↦ rw e (record {
      played = record {
        reached =
            Moves.next (Moves.next Moves.here (Moves.creates _ _ _ _ _ _ _ refl))
              (Moves.starts now _ refl);
        never_stopped = refl;
        fair = record { red = tt; blue = tt; boxes = tt };
        over = tt;
      };
      named = tt;
      mutex = tt;
      main_place = (refl, refl);
    })
    | inr e ↦ rw e tt
  ]

  pub boot-IsSound :
      (p : SubProcess R F)
      → boot fl bind settings draw stream created now ≡ some p
      → IsSound fl created p
  boot-IsSound p e =
      OnSome-some (IsSound fl created) (boot fl bind settings draw stream created now) p boot_made e

  module _ (make_address : String → Option String) (crc : Crc) (wire : Wire R F)
      (memory : Datagram) where
    -- Whatever is received and in whatever order the threads run from the start on, as long as no
    -- handler has undefined behaviour: when `main` has left its loop, and so tells the main process
    -- that the game is finished and stops both sides, the game thread has ended and one of the
    -- teams has won the game.
    pub tells_of_victory :
        (p q : SubProcess R F)
        → boot fl bind settings draw stream created now ≡ some p
        → Reaches fl make_address crc wire memory p q
        → left_loop q.main ≡ true
        → (q.logic.thread ≡ returned) × WonGame q.logic.game
    tells_of_victory p q e r left =
        let k = Reaches-IsSound fl created crc wire memory make_address r (boot-IsSound p e) in
        let at =
          Knows-returned q.main q.logic.thread q.tcp.worker q.comm.locked k.main_place left in
        (at, subst (λ (w : Thread). Over w q.logic.game) at k.played.over)
