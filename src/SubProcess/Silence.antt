-- ===== src/SubProcess/Silence.antt =====
-- The UDP side after a roster with a text that is no address.
use Prim.Native.String.{String}
use upzp_game_process.Prelude.{
  Bool-cases, inl, inr, ℕ, ◌≡◌, subst, Bool, true, false, Option, some, List, [], ◌∷◌,
  if◌then◌else◌,
}
use upzp_game_process.Doubles.{Doubles}
use upzp_game_process.Datagram.{Crc, Datagram}
use upzp_game_process.DatagramStream.{DatagramStream}
use upzp_game_process.SubProcessSettings.{SubProcessSettings}
use upzp_game_process.Game.{Draw}
use upzp_game_process.GameLogic.{GameLogic}
use upzp_game_process.SubProcess.Boot.{boot-IsSound}
use upzp_game_process.Wire.{Wire}
use upzp_game_process.ClientUdp.{Endpoint}
use upzp_game_process.ClientCommunication.{
  ClientCommunication, Outcome, blocked, handle_transmit, get_game_status_into_transmit_buffer,
  handle_receive as handle_receive_udp,
}
use upzp_game_process.SubProcess.{
  Worker, serving, SubProcess, Sent, to_main_process, to_client, MainThread, starting_tcp,
  starting_udp, keeping_alive, telling, stopping_tcp, joining_tcp, stopping_udp, joining_udp,
  exited, connect, after_udp, receive_udp, transmit_udp, after_timer, main_goes, start_runner,
  join_runner, connecting, boot,
}
use upzp_game_process.SubProcess.Steps.{
  Step, goes, acts, connects, receives, closes, hears, transmits, ends, wakes_tcp, wakes_udp,
  Reaches, here, next,
}
use upzp_game_process.SubProcess.Invariant.{Unlocked, IsSound}
use upzp_game_process.SubProcess.MainSteps.{OnSome, OnSome-some, OnSome-then}
use upzp_game_process.SubProcess.Soundness.{Reaches-IsSound}

-- No datagram goes to a client.
abbrev pub Silent : List Sent → Type 0
Silent [] = Unit
Silent (to_main_process bytes ∷ out) = Silent out
Silent (to_client endpoint bytes ∷ out) = ⊥

not_held : (b : Bool) → b ≡ true → b ≡ false → ⊥
not_held b e f = cc

module _ {R F : Type 0} where
  -- The mutex is held.
  abbrev Held : SubProcess R F → Type 0
  Held p = p.comm.locked ≡ true

  abbrev HeldSilent : SubProcess R F × List Sent → Type 0
  HeldSilent (p, out) = Held p × Silent out

module _ {R F : Type 0} (crc : Crc) (wire : Wire R F) (memory : Datagram) where
  main_at :
      (place : MainThread) (p : SubProcess R F)
      → Held p
      → OnSome HeldSilent (main_goes crc wire memory place p)
  unfolding main_goes
  main_at starting_tcp p k = OnSome-then _ (start_runner connecting p.tcp) _ (λ r e. (k, tt))
  main_at starting_udp p k = OnSome-then _ (start_runner serving p.udp) _ (λ r e. (k, tt))
  main_at keeping_alive p k = (k, tt)
  main_at telling p k = elim (Bool-cases p.linked) [
    | inl e ↦ rw (main_goes, e) (k, tt)
    | inr e ↦ rw (main_goes, e) (k, tt)
  ]
  main_at stopping_tcp p k = (k, tt)
  main_at joining_tcp p k = OnSome-then _ (join_runner p.tcp) _ (λ r e. (k, tt))
  main_at stopping_udp p k = (k, tt)
  main_at joining_udp p k = OnSome-then _ (join_runner p.udp) _ (λ r e. (k, tt))
  main_at exited p k = tt

  connect-Held :
      (up : Bool) (p : SubProcess R F) → Held p → HeldSilent (connect crc wire memory up p)
  unfolding connect
  connect-Held true p k = (k, tt)
  connect-Held false p k = (k, tt)

  -- The receive handler with the mutex as a variable.
  after_udp_at :
      (locked : Bool) (p : SubProcess R F)
      → (o : Outcome (ClientCommunication F × Option (GameLogic R F))) → locked ≡ true
      → Held p
      → OnSome Held (after_udp p (if locked then blocked else o))
  after_udp_at true p o e k = k
  after_udp_at false p o e k = cc

  receive_udp-Held :
      (buffer : List ℕ) (size : ℕ) (remote : Endpoint) (p : SubProcess R F)
      → Held p
      → OnSome Held (receive_udp crc wire memory buffer size remote p)
  unfolding receive_udp handle_receive_udp
  receive_udp-Held buffer size remote p k = after_udp_at p.comm.locked p _ k k

  after_timer_at :
      (locked : Bool) (p : SubProcess R F)
      → (o : Outcome (ClientCommunication F × List (Endpoint × List ℕ) × ℕ)) → locked ≡ true
      → Held p
      → OnSome HeldSilent (after_timer crc wire memory p (if locked then blocked else o))
  unfolding get_game_status_into_transmit_buffer
  after_timer_at true p o e k = (k, tt)
  after_timer_at false p o e k = cc

  transmit_udp-Held :
      (p : SubProcess R F) → Held p → OnSome HeldSilent (transmit_udp crc wire memory p)
  unfolding transmit_udp handle_transmit
  transmit_udp-Held p k = after_timer_at p.comm.locked p _ k k

  module _ (fl : Doubles R F) (make_address : String → Option String) (created : ℕ) where
    Step-Held :
        {p q : SubProcess R F} {out : List Sent}
        → Step fl make_address crc wire memory p q out
        → IsSound fl created p
        → Held p
        → Held q × Silent out
    Step-Held {p} {q} {out} (goes e) s k =
        OnSome-some HeldSilent (main_goes crc wire memory p.main p) (q, out) (main_at p.main p k) e
    Step-Held (acts now reached g e) s k = (k, tt)
    Step-Held {p} (connects up e) s k = connect-Held up p k
    Step-Held {p} (receives bytes e received) s k =
        absurd
          (not_held p.comm.locked k (subst (λ (w : Worker). Unlocked w p.comm.locked) e s.mutex))
    Step-Held (closes e) s k = (k, tt)
    Step-Held {p} {q} (hears buffer size remote e received) s k = (
      OnSome-some Held (receive_udp crc wire memory buffer size remote p) q
          (receive_udp-Held buffer size remote p k) received,
      tt,
    )
    Step-Held {p} {q} {out} (transmits e sent) s k =
        OnSome-some HeldSilent (transmit_udp crc wire memory p) (q, out) (transmit_udp-Held p k)
          sent
    Step-Held (ends e stopped) s k = (k, tt)
    Step-Held (wakes_tcp e free) s k = (k, tt)
    Step-Held (wakes_udp e free) s k = (k, tt)

    pub Reaches-Held :
        {p q : SubProcess R F}
        → Reaches fl make_address crc wire memory p q
        → IsSound fl created p
        → Held p
        → Held q
    Reaches-Held here s k = k
    Reaches-Held {p} (next {q} r step) s k =
        (Step-Held step (Reaches-IsSound fl created crc wire memory make_address r s)
          (Reaches-Held r s k)).0

    -- Once an exception has left the mutex of the clients locked, in whatever state the program
    -- came to, it stays locked as long as no handler has undefined behaviour, and no step of any
    -- thread sends a datagram to a client any more.
    pub Silent-after_exception :
        (bind : ℕ → Bool) (settings : SubProcessSettings R) (draw : ℕ → Draw R)
        → (stream : DatagramStream) (now : ℕ) (start p q r : SubProcess R F) (out : List Sent)
        → boot fl bind settings draw stream created now ≡ some start
        → Reaches fl make_address crc wire memory start p
        → p.comm.locked ≡ true
        → Reaches fl make_address crc wire memory p q
        → Step fl make_address crc wire memory q r out
        → (r.comm.locked ≡ true) × Silent out
    Silent-after_exception bind settings draw stream now start p q r out booted before k after
          step =
        let s =
          Reaches-IsSound fl created crc wire memory make_address before
            (boot-IsSound fl bind settings draw stream created now start booted) in
        Step-Held step (Reaches-IsSound fl created crc wire memory make_address after s)
          (Reaches-Held after s k)
