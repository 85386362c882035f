-- ===== src/SubProcess/Joined.antt =====
-- The threads that `main` has joined, where it stands in main.cpp.
use Prim.Native.String.{String}
use upzp_game_process.Prelude.{
  ℕ, ◌≡◌, ◌≢◌, refl, Bool, true, false, inl, inr, Bool-cases, Option, List,
}
use upzp_game_process.Doubles.{Doubles}
use upzp_game_process.Datagram.{Crc, Datagram}
use upzp_game_process.DatagramStream.{DatagramStream}
use upzp_game_process.SubProcessSettings.{SubProcessSettings}
use upzp_game_process.Game.{Draw}
use upzp_game_process.GameLogic.{GameLogic, running, start_game, new_game, new_game_logic}
use upzp_game_process.Wire.{Wire}
use upzp_game_process.ClientUdp.{Endpoint}
use upzp_game_process.ClientCommunication.{
  ClientCommunication, Outcome, done, throws, blocked, fault, out_of_fuel,
}
use upzp_game_process.MainProcessComm.{MainProcessComm}
use upzp_game_process.SubProcess.{
  Worker, absent, connecting, serving, stuck, ended, Runner, MainThread, starting_tcp, starting_udp,
  keeping_alive, telling, stopping_tcp, joining_tcp, stopping_udp, joining_udp, exited, SubProcess,
  Sent, boot, start_runner, join_runner, main_goes, connect, receive_tcp, receive_udp, transmit_udp,
  after_tcp, after_udp, after_timer,
}
use upzp_game_process.SubProcess.Steps.{
  Step, goes, acts, connects, receives, closes, hears, transmits, ends, wakes_tcp, wakes_udp,
  Reaches, here, next,
}
use upzp_game_process.SubProcess.MainSteps.{OnSome, OnSome-some, OnSome-then}

-- The threads that have been joined where `main` stands.
abbrev pub Joined : MainThread → Worker → Worker → Type 0
Joined stopping_udp tcp udp = tcp ≡ absent
Joined joining_udp tcp udp = tcp ≡ absent
Joined exited tcp udp = (tcp ≡ absent) × (udp ≡ absent)
Joined _ tcp udp = Unit

Joined-tcp :
    (main : MainThread) (tcp tcp' udp : Worker)
    → tcp ≢ absent
    → Joined main tcp udp
    → Joined main tcp' udp
Joined-tcp starting_tcp tcp tcp' udp there k = tt
Joined-tcp starting_udp tcp tcp' udp there k = tt
Joined-tcp keeping_alive tcp tcp' udp there k = tt
Joined-tcp telling tcp tcp' udp there k = tt
Joined-tcp stopping_tcp tcp tcp' udp there k = tt
Joined-tcp joining_tcp tcp tcp' udp there k = tt
Joined-tcp stopping_udp tcp tcp' udp there k = absurd (there k)
Joined-tcp joining_udp tcp tcp' udp there k = absurd (there k)
Joined-tcp exited tcp tcp' udp there k = absurd (there k.0)

Joined-udp :
    (main : MainThread) (tcp udp udp' : Worker)
    → udp ≢ absent
    → Joined main tcp udp
    → Joined main tcp udp'
Joined-udp starting_tcp tcp udp udp' there k = tt
Joined-udp starting_udp tcp udp udp' there k = tt
Joined-udp keeping_alive tcp udp udp' there k = tt
Joined-udp telling tcp udp udp' there k = tt
Joined-udp stopping_tcp tcp udp udp' there k = tt
Joined-udp joining_tcp tcp udp udp' there k = tt
Joined-udp stopping_udp tcp udp udp' there k = k
Joined-udp joining_udp tcp udp udp' there k = k
Joined-udp exited tcp udp udp' there k = absurd (there k.1)

working : {w : Worker} → w ≡ serving → w ≢ absent
working e f = cc

pub joined_at :
    (r : Runner) (place : Worker)
    → OnSome (λ (s : Runner). s.worker ≡ absent) (join_runner (record r { worker = place }))
unfolding join_runner
joined_at r absent = refl
joined_at r connecting = tt
joined_at r serving = tt
joined_at r stuck = tt
joined_at r ended = refl

module _ {R F : Type 0} where
  abbrev pub HasJoined : SubProcess R F → Type 0
  HasJoined p = Joined p.main p.tcp.worker p.udp.worker

  -- What an operation of the TCP thread leaves as it was.
  abbrev AsMain : SubProcess R F → SubProcess R F → Type 0
  AsMain p q = (q.main ≡ p.main) × (q.udp ≡ p.udp)

  after_tcp-AsMain :
      (p : SubProcess R F) (o : Outcome (MainProcessComm R F)) → OnSome (AsMain p) (after_tcp p o)
  after_tcp-AsMain p (done m) = (refl, refl)
  after_tcp-AsMain p (throws m) = (refl, refl)
  after_tcp-AsMain p blocked = (refl, refl)
  after_tcp-AsMain p fault = tt
  after_tcp-AsMain p out_of_fuel = tt

  after_udp-HasJoined :
      (p : SubProcess R F) (o : Outcome (ClientCommunication F × Option (GameLogic R F)))
      → p.udp.worker ≢ absent
      → HasJoined p
      → OnSome HasJoined (after_udp p o)
  after_udp-HasJoined p (done x) there k = k
  after_udp-HasJoined p (throws x) there k = tt
  after_udp-HasJoined p blocked there k = Joined-udp p.main p.tcp.worker p.udp.worker stuck there k
  after_udp-HasJoined p fault there k = tt
  after_udp-HasJoined p out_of_fuel there k = tt

  tcp-HasJoined :
      (p q : SubProcess R F) → p.tcp.worker ≡ serving → AsMain p q → HasJoined p → HasJoined q
  tcp-HasJoined p q e (main, udp) k =
      rw (main, udp) (Joined-tcp p.main p.tcp.worker q.tcp.worker p.udp.worker (working e) k)

module _ {R F : Type 0} (crc : Crc) (wire : Wire R F) (memory : Datagram) where
  abbrev Next : Option (SubProcess R F × List Sent) → Type 0
  Next = OnSome (λ (x : SubProcess R F × List Sent). HasJoined x.0)

  after_timer-HasJoined :
      (p : SubProcess R F)
      → (o : Outcome (ClientCommunication F × List (Endpoint × List ℕ) × ℕ)) → p.udp.worker ≢ absent
      → HasJoined p
      → Next (after_timer crc wire memory p o)
  after_timer-HasJoined p (done x) there k = k
  after_timer-HasJoined p (throws x) there k = tt
  after_timer-HasJoined p blocked there k =
      Joined-udp p.main p.tcp.worker p.udp.worker stuck there k
  after_timer-HasJoined p fault there k = tt
  after_timer-HasJoined p out_of_fuel there k = tt

  main_at :
      (place : MainThread) (p : SubProcess R F)
      → Joined place p.tcp.worker p.udp.worker
      → Next (main_goes crc wire memory place p)
  unfolding main_goes
  main_at starting_tcp p k = OnSome-then _ (start_runner connecting p.tcp) _ (λ r e. tt)
  main_at starting_udp p k = OnSome-then _ (start_runner serving p.udp) _ (λ r e. tt)
  main_at keeping_alive p k = elim (Bool-cases (running p.logic)) [
    | inl e ↦ rw (main_goes, e) tt
    | inr e ↦ rw (main_goes, e) tt
  ]
  main_at telling p k = tt
  main_at stopping_tcp p k = tt
  main_at joining_tcp p k =
      let joined = joined_at p.tcp p.tcp.worker in
      OnSome-then _ (join_runner p.tcp) _ (λ r e. rw e at joined)
  main_at stopping_udp p k = k
  main_at joining_udp p k =
      let joined = joined_at p.udp p.udp.worker in
      OnSome-then _ (join_runner p.udp) _ (λ r e. (k, rw e at joined))
  main_at exited p k = tt

  module _ (fl : Doubles R F) (make_address : String → Option String) where
    Step-HasJoined :
        {p q : SubProcess R F} {out : List Sent}
        → Step fl make_address crc wire memory p q out
        → HasJoined p
        → HasJoined q
    unfolding connect receive_tcp receive_udp transmit_udp
    Step-HasJoined {p} {q} {out} (goes e) k =
        OnSome-some _ (main_goes crc wire memory p.main p) (q, out) (main_at p.main p k) e
    Step-HasJoined (acts now reached g e) k = k
    Step-HasJoined {p} (connects true e) k =
        Joined-tcp p.main p.tcp.worker serving p.udp.worker (λ f. cc) k
    Step-HasJoined {p} (connects false e) k =
        Joined-tcp p.main p.tcp.worker ended p.udp.worker (λ f. cc) k
    Step-HasJoined {p} {q} (receives bytes e received) k =
        tcp-HasJoined p q e
          (OnSome-some (AsMain p) (receive_tcp fl make_address crc wire bytes p) q
            (after_tcp-AsMain p _) received)
          k
    Step-HasJoined {p} (closes e) k =
        Joined-tcp p.main p.tcp.worker ended p.udp.worker (working e) k
    Step-HasJoined {p} {q} (hears buffer size remote e received) k =
        OnSome-some HasJoined (receive_udp crc wire memory buffer size remote p) q
          (after_udp-HasJoined p _ (working e) k) received
    Step-HasJoined {p} {q} {out} (transmits e sent) k =
        OnSome-some _ (transmit_udp crc wire memory p) (q, out)
          (after_timer-HasJoined p _ (working e) k) sent
    Step-HasJoined {p} (ends e stopped) k =
        Joined-udp p.main p.tcp.worker p.udp.worker ended (working e) k
    Step-HasJoined {p} (wakes_tcp e free) k =
        Joined-tcp p.main p.tcp.worker serving p.udp.worker (λ f. cc) k
    Step-HasJoined {p} (wakes_udp e free) k =
        Joined-udp p.main p.tcp.worker p.udp.worker serving (λ f. cc) k

    pub Reaches-HasJoined :
        {p q : SubProcess R F}
        → Reaches fl make_address crc wire memory p q
        → HasJoined p
        → HasJoined q
    Reaches-HasJoined here k = k
    Reaches-HasJoined (next r s) k = Step-HasJoined s (Reaches-HasJoined r k)

pub boot-HasJoined :
    {R F : Type 0} (fl : Doubles R F) (bind : ℕ → Bool) (settings : SubProcessSettings R)
    → (draw : ℕ → Draw R) (stream : DatagramStream) (created now : ℕ)
    → OnSome (HasJoined {R = R} {F = F}) (boot fl bind settings draw stream created now)
unfolding boot start_game new_game new_game_logic
boot-HasJoined fl bind settings draw stream created now =
    elim (Bool-cases (bind settings.udp_port)) [ inl e ↦ rw e tt | inr e ↦ rw e tt ]
