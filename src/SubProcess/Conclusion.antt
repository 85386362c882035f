-- ===== src/SubProcess/Conclusion.antt =====
-- The way from a victory to the end of main.cpp.
use Prim.Native.String.{String}
use upzp_game_process.Prelude.{
  ℕ, ◌≡◌, ◌≢◌, refl, ◌∙◌, ap, subst, inl, inr, Bool, false, Option, none, some, List, [], ◌∷◌,
  arith, Option-cases,
}
use upzp_game_process.Doubles.{Doubles}
use upzp_game_process.Datagram.{Crc, Datagram}
use upzp_game_process.DatagramStream.{DatagramStream}
use upzp_game_process.SubProcessSettings.{SubProcessSettings}
use upzp_game_process.Game.{Draw, Game}
use upzp_game_process.GameLogic.{Thread, no_thread, returned, GameLogic, running, act}
use upzp_game_process.GameLogic.Threads.{WonGame}
use upzp_game_process.GameLogic.Running.{alive, running_lem}
use upzp_game_process.GameLogic.Stopping.{run_thread}
use upzp_game_process.GameLogic.Ending.{run_thread-ends}
use upzp_game_process.Wire.{Wire}
use upzp_game_process.SubProcess.{absent, keeping_alive, exited, SubProcess, boot}
use upzp_game_process.SubProcess.Steps.{acts, Reaches, here, next}
use upzp_game_process.SubProcess.Logic.{Over, FairGame}
use upzp_game_process.SubProcess.Soundness.{Reaches-IsSound}
use upzp_game_process.SubProcess.Boot.{boot-IsSound}
use upzp_game_process.SubProcess.Ending.{at_work, main_exits}

module _ {R F : Type 0} where
  started : (place : Thread) (game : Option (Game R F)) → Over place game → place ≢ no_thread
  started place game k e = subst (λ (w : Thread). Over w game) e k

module _ {R F : Type 0} (fl : Doubles R F) (make_address : String → Option String) (crc : Crc)
    (wire : Wire R F) (memory : Datagram) where
  abbrev pub Comes : SubProcess R F → SubProcess R F → Type 0
  Comes = Reaches fl make_address crc wire memory

  pub Comes-trans : {p q r : SubProcess R F} → Comes p q → Comes q r → Comes p r
  Comes-trans f here = f
  Comes-trans f (next g step) = next (Comes-trans f g) step

  -- The actions of the game thread, with the other threads at rest.
  run_thread-Comes :
      (times : List (ℕ × ℕ)) (p q : SubProcess R F)
      → Comes p q
      → Comes p (record q { logic = run_thread fl times q.logic })
  unfolding run_thread
  run_thread-Comes [] p q r = r
  run_thread-Comes ((now, reached) ∷ rest) p q r = elim (Option-cases q.logic.game) [
    | inl e ↦ rw (run_thread, e) r
    | inr (g, e) ↦
        rw (run_thread, e)
          (run_thread-Comes rest p
            (record q { logic = (act fl now reached q.logic.thread g q.logic).0 })
            (next r (acts now reached g e)))
  ]

  abbrev six : List (ℕ × ℕ)
  six = (0, 0) ∷ (0, 0) ∷ (0, 0) ∷ (0, 0) ∷ (0, 0) ∷ (0, 0) ∷ []

  run_thread-returned :
      (l : GameLogic R F) (game : Option (Game R F))
      → l.game ≡ game
      → FairGame game
      → WonGame game
      → l.thread ≢ no_thread
      → (run_thread fl six l).thread ≡ returned
  run_thread-returned l none e fair won there = absurd won
  run_thread-returned l (some g) e fair won there =
      run_thread-ends fl six l g e fair won there (omega arith)

  -- From any state that the program can come to in which `main` waits, both sides run handlers and
  -- one of the teams has won the game, there is an order of steps in which the game thread ends and
  -- `main` comes to its end, with the threads of both sides joined.
  pub main_exits_won :
      (bind : ℕ → Bool) (settings : SubProcessSettings R) (draw : ℕ → Draw R)
      → (stream : DatagramStream) (created now : ℕ) (p q : SubProcess R F)
      → boot fl bind settings draw stream created now ≡ some p
      → Comes p q
      → q.main ≡ keeping_alive
      → q.tcp ≡ at_work
      → q.udp ≡ at_work
      → WonGame q.logic.game
      → (r : SubProcess R F) × Comes q r
        × (r.main ≡ exited)
        × (r.tcp.worker ≡ absent)
        × (r.udp.worker ≡ absent)
  main_exits_won bind settings draw stream created now p q booted reached at tcp udp won =
      let played : SubProcess R F = record q { logic = run_thread fl six q.logic } in
      let over : Comes q played = run_thread-Comes six q q here in
      let start = boot-IsSound fl bind settings draw stream created now p booted in
      let sound = Reaches-IsSound fl created crc wire memory make_address reached start in
      let end = Reaches-IsSound fl created crc wire memory make_address over sound in
      let ended : played.logic.thread ≡ returned =
        run_thread-returned q.logic q.logic.game refl sound.played.fair won
          (started q.logic.thread q.logic.game sound.played.over) in
      let stopped : running played.logic ≡ false =
        running_lem fl created played.logic end.played.reached ∙ ap alive ended in
      let (r, comes, exits, no_tcp, no_udp) =
        main_exits crc wire memory fl make_address played at stopped tcp udp in
      (r, Comes-trans over comes, exits, no_tcp, no_udp)
