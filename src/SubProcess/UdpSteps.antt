-- ===== src/SubProcess/UdpSteps.antt =====
-- The invariant of the sub-process under the steps of the UDP thread.
use upzp_game_process.Prelude.{
  ℕ, ◌≡◌, refl, ◌∙◌, sym, subst, Bool, true, false, Option, some, List, if◌then◌else◌,
}
use upzp_game_process.Doubles.{Doubles}
use upzp_game_process.Datagram.{Crc, Datagram}
use upzp_game_process.Client.{PlayerInput}
use upzp_game_process.GameLogic.{Thread, GameLogic, set_player_movement}
use upzp_game_process.Wire.{Wire}
use upzp_game_process.ClientUdp.{Endpoint}
use upzp_game_process.ClientCommunication.{
  ClientCommunication, Outcome, done, throws, blocked, fault, out_of_fuel, handle_transmit,
  get_game_status_into_transmit_buffer, handle_receive as handle_receive_udp,
}
use upzp_game_process.ClientCommunication.Receiving.{handle_receive-ChangesAll}
use upzp_game_process.ClientCommunication.Steering.{handle_receive-Keeps}
use upzp_game_process.SubProcess.{SubProcess, Sent, after_udp, transmit_udp, after_timer}
use upzp_game_process.SubProcess.Logic.{IsPlayed, set_player_movement-IsPlayed}
use upzp_game_process.SubProcess.Names.{ChangesAll-Named}
use upzp_game_process.SubProcess.Invariant.{Unlocked, Knows, Knows-place, IsSound}
use upzp_game_process.SubProcess.MainSteps.{OnSome, OnSome-some}

module _ {R F : Type 0} (fl : Doubles R F) (created : ℕ) where
  module _ (crc : Crc) (wire : Wire R F) (memory : Datagram) where
    -- The game logic after an input that the UDP side hands over.
    abbrev Steered : Thread → GameLogic R F → Type 0
    Steered place l = IsPlayed fl created l × (l.thread ≡ place)

    steers-Steered :
        (place : Thread) (input : PlayerInput F) (l : GameLogic R F)
        → Steered place l
        → Steered place (set_player_movement input l)
    unfolding set_player_movement
    steers-Steered place input l (played, at) =
        (set_player_movement-IsPlayed fl created input l played, at)

    pub after_udp-IsSound :
        (buffer : List ℕ) (size : ℕ) (remote : Endpoint) (p : SubProcess R F)
        → (o : Outcome (ClientCommunication F × Option (GameLogic R F)))
        → handle_receive_udp crc wire memory buffer size remote p.comm (some p.logic) ≡ o
        → IsSound fl created p
        → OnSome (IsSound fl created) (after_udp p o)
    after_udp-IsSound buffer size remote p (done (comm, logic)) e k =
        let (changes, free) =
          handle_receive-ChangesAll crc wire memory buffer size remote p.comm (some p.logic) comm
            logic e in
        let (l, there, (played, at), was_free) =
          handle_receive-Keeps crc wire memory (Steered p.logic.thread)
            (steers-Steered p.logic.thread) buffer size remote p.comm p.logic comm logic
            (k.played, refl) e in
        let lock : comm.locked ≡ p.comm.locked = free ∙ sym was_free in
        rw there (record {
          played = played;
          named = ChangesAll-Named remote p.comm.clients comm.clients changes k.named;
          mutex = subst (Unlocked p.tcp.worker) (sym lock) k.mutex;
          main_place =
              Knows-place p.main p.logic.thread l.thread p.tcp.worker comm.locked (λ f. at ∙ f)
                (subst (Knows p.main p.logic.thread p.tcp.worker) (sym lock) k.main_place);
        })
    after_udp-IsSound buffer size remote p blocked e k = record {
      played = k.played;
      named = k.named;
      mutex = k.mutex;
      main_place = k.main_place;
    }
    after_udp-IsSound buffer size remote p (throws x) e k = tt
    after_udp-IsSound buffer size remote p fault e k = tt
    after_udp-IsSound buffer size remote p out_of_fuel e k = tt

    -- The timer's handler, with the mutex as a variable.
    after_timer_at :
        (locked : Bool) (p : SubProcess R F) (sends : List (Endpoint × List ℕ)) (timers : ℕ)
        → IsSound fl created p
        → OnSome
            (λ (x : SubProcess R F × List Sent). IsSound fl created x.0)
            (after_timer crc wire memory p (
              if locked
              then blocked
              else done (
                get_game_status_into_transmit_buffer crc wire memory (some p.logic) p.comm,
                sends,
                timers,
              )))
    unfolding get_game_status_into_transmit_buffer
    after_timer_at true p sends timers k = record {
      played = k.played;
      named = k.named;
      mutex = k.mutex;
      main_place = k.main_place;
    }
    after_timer_at false p sends timers k = record {
      played = k.played;
      named = k.named;
      mutex = k.mutex;
      main_place = k.main_place;
    }

    pub transmit_udp-IsSound :
        (p q : SubProcess R F) (out : List Sent)
        → IsSound fl created p
        → transmit_udp crc wire memory p ≡ some (q, out)
        → IsSound fl created q
    unfolding transmit_udp handle_transmit
    transmit_udp-IsSound p q out k e =
        OnSome-some (λ (x : SubProcess R F × List Sent). IsSound fl created x.0)
          (transmit_udp crc wire memory p) (q, out) (after_timer_at p.comm.locked p _ _ k) e
