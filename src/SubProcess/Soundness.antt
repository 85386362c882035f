-- ===== src/SubProcess/Soundness.antt =====
-- The invariant of the sub-process under the steps of all its threads.
use Prim.Native.String.{String}
use upzp_game_process.Prelude.{ℕ, ◌≡◌, refl, sym, subst, Option, some, List}
use upzp_game_process.Doubles.{Doubles}
use upzp_game_process.Datagram.{Crc, Datagram}
use upzp_game_process.Game.{Game}
use upzp_game_process.GameLogic.{Thread, returned, GameLogic, act}
use upzp_game_process.Wire.{Wire}
use upzp_game_process.SubProcess.{Worker, SubProcess, Sent, receive_udp}
use upzp_game_process.SubProcess.Steps.{
  Step, goes, acts, connects, receives, closes, hears, transmits, ends, wakes_tcp, wakes_udp,
  Reaches, here, next,
}
use upzp_game_process.SubProcess.Logic.{act-IsPlayed}
use upzp_game_process.SubProcess.Invariant.{Unlocked, Knows-place, IsSound}
use upzp_game_process.SubProcess.MainSteps.{OnSome-some, main_goes-IsSound}
use upzp_game_process.SubProcess.TcpSteps.{connect-IsSound, closes-IsSound, receive_tcp-IsSound}
use upzp_game_process.SubProcess.UdpSteps.{after_udp-IsSound, transmit_udp-IsSound}

module _ {R F : Type 0} where
  act-returned :
      (fl : Doubles R F) (now reached : ℕ) (g : Game R F) (l : GameLogic R F)
      → l.thread ≡ returned
      → (act fl now reached l.thread g l).0.thread ≡ returned
  unfolding act
  act-returned fl now reached g l e =
      subst (λ (w : Thread). (act fl now reached w g l).0.thread ≡ returned) (sym e) e

module _ {R F : Type 0} (fl : Doubles R F) (created : ℕ) where
  acts-IsSound :
      (p : SubProcess R F) (now reached : ℕ) (g : Game R F)
      → p.logic.game ≡ some g
      → IsSound fl created p
      → IsSound fl created (record p { logic = (act fl now reached p.logic.thread g p.logic).0 })
  acts-IsSound p now reached g e k = record {
    played = act-IsPlayed fl created now reached g p.logic e k.played;
    named = k.named;
    mutex = k.mutex;
    main_place =
        Knows-place p.main p.logic.thread _ p.tcp.worker p.comm.locked
          (act-returned fl now reached g p.logic) k.main_place;
  }

  module _ (crc : Crc) (wire : Wire R F) (memory : Datagram) where
    module _ (make_address : String → Option String) where
      Step-IsSound :
          {p q : SubProcess R F} {out : List Sent}
          → Step fl make_address crc wire memory p q out
          → IsSound fl created p
          → IsSound fl created q
      unfolding receive_udp
      Step-IsSound {p} {q} {out} (goes e) k =
          main_goes-IsSound fl created crc wire memory p q out k e
      Step-IsSound {p} (acts now reached g e) k = acts-IsSound p now reached g e k
      Step-IsSound {p} (connects up e) k = connect-IsSound fl created crc wire memory up p e k
      Step-IsSound {p} {q} (receives bytes e received) k =
          receive_tcp-IsSound fl created make_address crc wire bytes p q e k received
      Step-IsSound {p} (closes e) k = closes-IsSound fl created p e k
      Step-IsSound {p} {q} (hears buffer size remote e received) k =
          OnSome-some (IsSound fl created) (receive_udp crc wire memory buffer size remote p) q
            (after_udp-IsSound fl created crc wire memory buffer size remote p _ refl k) received
      Step-IsSound {p} {q} {out} (transmits e sent) k =
          transmit_udp-IsSound fl created crc wire memory p q out k sent
      Step-IsSound {p} (ends e stopped) k = record {
        played = k.played;
        named = k.named;
        mutex = k.mutex;
        main_place = k.main_place;
      }
      Step-IsSound {p} (wakes_tcp e free) k =
          absurd (subst (λ (w : Worker). Unlocked w p.comm.locked) e k.mutex)
      Step-IsSound {p} (wakes_udp e free) k = record {
        played = k.played;
        named = k.named;
        mutex = k.mutex;
        main_place = k.main_place;
      }

      pub Reaches-IsSound :
          {p q : SubProcess R F}
          → Reaches fl make_address crc wire memory p q
          → IsSound fl created p
          → IsSound fl created q
      Reaches-IsSound here k = k
      Reaches-IsSound (next r s) k = Step-IsSound s (Reaches-IsSound r k)
