-- ===== src/SubProcess/Waiting.antt =====
-- How main.cpp does not come to its end: the way of an exception of the TCP side to the UDP thread, which
-- `main` joins.
use Prim.Native.String.{String}
use upzp_game_process.Prelude.{
  ℕ, ap, some, ◌≡◌, ◌≢◌, refl, subst, inl, inr, Bool, true, false, Option, none, List, Bool-cases,
}
use upzp_game_process.Doubles.{Doubles}
use upzp_game_process.Datagram.{Crc, Datagram}
use upzp_game_process.GameLogic.{running}
use upzp_game_process.Wire.{Wire}
use upzp_game_process.ClientCommunication.{
  ClientCommunication, Outcome, done, throws, blocked, fault, out_of_fuel,
}
use upzp_game_process.MainProcessComm.{Peers, MainProcessComm, handle_receive}
use upzp_game_process.SubProcess.{
  Worker, serving, stuck, connecting, Runner, SubProcess, Sent, MainThread, or_else, tcp_side,
  put_back, boot, starting_tcp, starting_udp, keeping_alive, telling, stopping_tcp, joining_tcp,
  stopping_udp, joining_udp, exited, end_runner, connect, after_tcp, receive_tcp, main_goes,
  start_runner, stop_runner, join_runner,
}
use upzp_game_process.SubProcess.Steps.{
  Step, goes, acts, connects, receives, closes, hears, transmits, ends, wakes_tcp, wakes_udp,
  Reaches, here, next,
}
use upzp_game_process.SubProcess.MainSteps.{OnSome, OnSome-some, OnSome-then}
use upzp_game_process.DatagramStream.{DatagramStream}
use upzp_game_process.SubProcessSettings.{SubProcessSettings}
use upzp_game_process.Game.{Draw}
use upzp_game_process.MainProcessComm.Finishing.{Free, Held, load_into-Ends}
use upzp_game_process.SubProcess.Handling.{handle_receive-Ends}
use upzp_game_process.SubProcess.Invariant.{Unlocked, IsSound}
use upzp_game_process.SubProcess.Soundness.{Reaches-IsSound}
use upzp_game_process.SubProcess.Boot.{boot-IsSound}
use upzp_game_process.SubProcess.Silence.{Reaches-Held}

not_held : (b : Bool) → b ≡ true → b ≡ false → ⊥
not_held b e f = cc

-- The thread waits for the mutex.
abbrev Waits : Runner → Type 0
Waits r = r.worker ≡ stuck

start_runner-Waits : (r : Runner) → Waits r → OnSome Waits (start_runner serving r)
unfolding start_runner
start_runner-Waits r k = elim (Bool-cases r.is_running) [
  | inl e ↦ rw (e, k) refl
  | inr e ↦ rw (e, k) tt
]

stop_runner-Waits : (r : Runner) → Waits r → Waits (stop_runner r)
unfolding stop_runner
stop_runner-Waits r k = elim (Bool-cases r.is_running) [ inl e ↦ rw e k | inr e ↦ rw e k ]

join_runner-none : (r : Runner) → Waits r → join_runner r ≡ none
unfolding join_runner
join_runner-none r k = rw k refl

not_serving : (w : Worker) → w ≡ stuck → w ≡ serving → ⊥
not_serving w e f = cc

module _ {R F : Type 0} where
  -- The UDP thread waits for the mutex, and `main` has not come to its end.
  abbrev Hangs : SubProcess R F → Type 0
  Hangs p = Waits p.udp × (p.main ≢ exited)

  abbrev HangsNext : SubProcess R F × List Sent → Type 0
  HangsNext x = Hangs x.0

  after_tcp-Hangs :
      (p : SubProcess R F) (o : Outcome (MainProcessComm R F))
      → Hangs p
      → OnSome Hangs (after_tcp p o)
  after_tcp-Hangs p (done m) k = (k.0, k.1)
  after_tcp-Hangs p (throws m) k = (k.0, k.1)
  after_tcp-Hangs p blocked k = (k.0, k.1)
  after_tcp-Hangs p fault k = tt
  after_tcp-Hangs p out_of_fuel k = tt

  module _ (crc : Crc) (wire : Wire R F) (memory : Datagram) where
    connect-Hangs :
        (up : Bool) (p : SubProcess R F) → Hangs p → HangsNext (connect crc wire memory up p)
    unfolding connect
    connect-Hangs true p k = (k.0, k.1)
    connect-Hangs false p k = (k.0, k.1)

    main_at :
        (place : MainThread) (p : SubProcess R F)
        → Waits p.udp
        → OnSome HangsNext (main_goes crc wire memory place p)
    unfolding main_goes
    main_at starting_tcp p k = OnSome-then _ (start_runner connecting p.tcp) _ (λ r e. (k, λ f. cc))
    main_at starting_udp p k =
        let started = start_runner-Waits p.udp k in
        OnSome-then _ (start_runner serving p.udp) _ (λ r e. (rw e at started, λ f. cc))
    main_at keeping_alive p k = elim (Bool-cases (running p.logic)) [
      | inl e ↦ rw (main_goes, e) (k, λ f. cc)
      | inr e ↦ rw (main_goes, e) (k, λ f. cc)
    ]
    main_at telling p k = (k, λ f. cc)
    main_at stopping_tcp p k = (k, λ f. cc)
    main_at joining_tcp p k = OnSome-then _ (join_runner p.tcp) _ (λ r e. (k, λ f. cc))
    main_at stopping_udp p k = (stop_runner-Waits p.udp k, λ f. cc)
    main_at joining_udp p k = rw (main_goes, join_runner-none p.udp k) tt
    main_at exited p k = tt

    module _ (fl : Doubles R F) (make_address : String → Option String) where
      Step-Hangs :
          {p q : SubProcess R F} {out : List Sent}
          → Step fl make_address crc wire memory p q out
          → p.comm.locked ≡ true
          → Hangs p
          → Hangs q
      unfolding receive_tcp
      Step-Hangs {p} {q} {out} (goes e) held k =
          OnSome-some HangsNext (main_goes crc wire memory p.main p) (q, out) (main_at p.main p k.0)
            e
      Step-Hangs (acts now reached g e) held k = (k.0, k.1)
      Step-Hangs {p} (connects up e) held k = connect-Hangs up p k
      Step-Hangs {p} {q} (receives bytes e received) held k =
          OnSome-some Hangs (receive_tcp fl make_address crc wire bytes p) q (after_tcp-Hangs p _ k)
            received
      Step-Hangs (closes e) held k = (k.0, k.1)
      Step-Hangs {p} (hears buffer size remote e received) held k =
          absurd (not_serving p.udp.worker k.0 e)
      Step-Hangs {p} (transmits e sent) held k = absurd (not_serving p.udp.worker k.0 e)
      Step-Hangs {p} (ends e stopped) held k = absurd (not_serving p.udp.worker k.0 e)
      Step-Hangs (wakes_tcp e free) held k = (k.0, k.1)
      Step-Hangs {p} (wakes_udp e free) held k = absurd (not_held p.comm.locked held free)

      Reaches-Hangs :
          (created : ℕ) {p q : SubProcess R F}
          → Reaches fl make_address crc wire memory p q
          → IsSound fl created p
          → p.comm.locked ≡ true
          → Hangs p
          → Hangs q
      Reaches-Hangs created here s held k = k
      Reaches-Hangs created (next r step) s held k =
          Step-Hangs step (Reaches-Held crc wire memory fl make_address created r s held)
            (Reaches-Hangs created r s held k)

      locked_after :
          (comm : ClientCommunication F) (left : Option (ClientCommunication F))
          → Held left
          → (or_else comm left).locked ≡ true
      locked_after comm none held = absurd held
      locked_after comm (some x) held = held

      -- From any state that the program can come to in which the TCP thread runs handlers, an exception
      -- of its receive handler leaves the mutex locked.
      after_exception_locked :
          (created : ℕ) (bytes : List ℕ) (p : SubProcess R F) (m : MainProcessComm R F)
          → p.tcp.worker ≡ serving
          → IsSound fl created p
          → handle_receive fl make_address crc wire bytes (tcp_side p) ≡ throws m
          → (put_back m p).comm.locked ≡ true
      after_exception_locked created bytes p m at s thrown =
          let free = subst (λ (w : Worker). Unlocked w p.comm.locked) at s.mutex in
          let ends =
            handle_receive-Ends fl make_address (λ (x : Peers R F). Free x.comm)
              (λ (x : Peers R F). Held x.comm)
              (λ red c x. load_into-Ends fl make_address red c x.comm x.logic) crc wire bytes
              (tcp_side p) free in
          locked_after p.comm m.peers.comm (rw thrown at ends)

      -- In any state that the program can come to, the receive handler of the TCP side throws. In
      -- whatever order the threads run from there on, and whatever they receive, as long as no handler
      -- has undefined behaviour: once the UDP thread waits for the mutex of the clients and `main` has
      -- not come to its end, the UDP thread waits for ever, and `main` never comes to its end.
      pub main_never_exits :
          (bind : ℕ → Bool) (settings : SubProcessSettings R) (draw : ℕ → Draw R)
          → (stream : DatagramStream) (created now : ℕ) (start p q r : SubProcess R F)
          → (bytes : List ℕ) (m : MainProcessComm R F)
          → boot fl bind settings draw stream created now ≡ some start
          → Reaches fl make_address crc wire memory start p
          → p.tcp.worker ≡ serving
          → handle_receive fl make_address crc wire bytes (tcp_side p) ≡ throws m
          → Reaches fl make_address crc wire memory
              (record (put_back m p) { tcp = end_runner p.tcp })
              q
          → q.udp.worker ≡ stuck
          → q.main ≢ exited
          → Reaches fl make_address crc wire memory q r
          → (r.udp.worker ≡ stuck) × (r.main ≢ exited)
      unfolding receive_tcp
      main_never_exits bind settings draw stream created now start p q r bytes m booted before at
            thrown between waits not_yet after =
          let s =
            Reaches-IsSound fl created crc wire memory make_address before
              (boot-IsSound fl bind settings draw stream created now start booted) in
          let thrown_at =
            Reaches-IsSound fl created crc wire memory make_address
              (next before (receives bytes at (ap (after_tcp p) thrown)))
              (boot-IsSound fl bind settings draw stream created now start booted) in
          let held = after_exception_locked created bytes p m at s thrown in
          Reaches-Hangs created after
            (Reaches-IsSound fl created crc wire memory make_address between thrown_at)
            (Reaches-Held crc wire memory fl make_address created between thrown_at held)
            (waits, not_yet)
