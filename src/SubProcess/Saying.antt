-- ===== src/SubProcess/Saying.antt =====
-- What has been said to the main process, under the steps of all threads of the sub-process.
use Prim.Native.String.{String}
use upzp_game_process.Prelude.{ℕ, ◌≡◌, refl, sym, subst, Bool, true, false, Option, List, [], ◌++◌}
use upzp_game_process.Doubles.{Doubles}
use upzp_game_process.Datagram.{Crc, Datagram}
use upzp_game_process.Wire.{Wire}
use upzp_game_process.SubProcess.{
  Worker, absent, connecting, connect, SubProcess, Sent, main_goes, receive_tcp, receive_udp,
  transmit_udp,
}
use upzp_game_process.SubProcess.Steps.{
  Step, goes, acts, connects, receives, closes, hears, transmits, ends, wakes_tcp, wakes_udp,
}
use upzp_game_process.SubProcess.MainSteps.{OnSome-some}
use upzp_game_process.SubProcess.Messages.{
  Runs, starts, goes_on, for_main, for_main-append, has_told, Tells, Identifies, move-HasSaid,
  Quiet, after_tcp-Quiet, after_udp-Quiet, after_timer-Quiet, HasSaid, Quiet-HasSaid, main_at,
}

not_both : (w : Worker) → w ≡ connecting → w ≡ absent → ⊥
not_both w e f = cc

module _ {R F : Type 0} (crc : Crc) (wire : Wire R F) (memory : Datagram) where
  module _ (Says : Bool → Bool → List (List ℕ) → Type 0) where
    connect-HasSaid :
        (up : Bool) (game_id : ℕ) (p : SubProcess R F) (ms : List (List ℕ))
        → Identifies crc wire memory Says game_id
        → p.tcp.worker ≡ connecting
        → HasSaid crc wire memory Says game_id p ms
        → HasSaid crc wire memory Says game_id
            (connect crc wire memory up p).0
            (ms ++ for_main (connect crc wire memory up p).1)
    unfolding connect
    connect-HasSaid true game_id p ms identifies e k = record {
      said = rw k.same_id (identifies (has_told p.main) ms (rw (k.unsent.1 e) at k.said));
      unsent = (λ f. absurd (not_both p.tcp.worker e (k.unsent.0 f).0), λ f. cc);
      same_id = k.same_id;
    }
    connect-HasSaid false game_id p ms identifies e k =
        move-HasSaid crc wire memory Says game_id p _ ms k refl refl refl
          (λ f. absurd (not_both p.tcp.worker e (k.unsent.0 f).0), λ f. cc)

    module _ (fl : Doubles R F) (make_address : String → Option String) (game_id : ℕ)
        (tells : Tells crc wire memory Says)
        (identifies : Identifies crc wire memory Says game_id) where
      Step-HasSaid :
          {p q : SubProcess R F} {out : List Sent} (ms : List (List ℕ))
          → Step fl make_address crc wire memory p q out
          → HasSaid crc wire memory Says game_id p ms
          → HasSaid crc wire memory Says game_id q (ms ++ for_main out)
      unfolding receive_tcp receive_udp transmit_udp
      Step-HasSaid {p} {q} {out} ms (goes e) k =
          OnSome-some _ (main_goes crc wire memory p.main p) (q, out)
            (main_at crc wire memory Says tells p.main game_id p ms k) e
      Step-HasSaid {p} ms (acts now reached g e) k =
          Quiet-HasSaid crc wire memory Says game_id p _ [] ms
            (refl, refl, refl, λ f. f, λ f. f, refl) k
      Step-HasSaid {p} ms (connects up e) k = connect-HasSaid up game_id p ms identifies e k
      Step-HasSaid {p} {q} ms (receives bytes e received) k =
          Quiet-HasSaid crc wire memory Says game_id p q [] ms
            (OnSome-some (λ (r : SubProcess R F). Quiet p (r, []))
              (receive_tcp fl make_address crc wire bytes p) q (after_tcp-Quiet p _ e) received)
            k
      Step-HasSaid {p} ms (closes e) k =
          Quiet-HasSaid crc wire memory Says game_id p _ [] ms
            (refl, refl, refl, λ f. cc, λ f. cc, refl) k
      Step-HasSaid {p} {q} ms (hears buffer size remote e received) k =
          Quiet-HasSaid crc wire memory Says game_id p q [] ms
            (OnSome-some (λ (r : SubProcess R F). Quiet p (r, []))
              (receive_udp crc wire memory buffer size remote p) q (after_udp-Quiet p _) received)
            k
      Step-HasSaid {p} {q} {out} ms (transmits e sent) k =
          Quiet-HasSaid crc wire memory Says game_id p q out ms
            (OnSome-some (Quiet p) (transmit_udp crc wire memory p) (q, out)
              (after_timer-Quiet crc wire memory p _) sent)
            k
      Step-HasSaid {p} ms (ends e stopped) k =
          Quiet-HasSaid crc wire memory Says game_id p _ [] ms
            (refl, refl, refl, λ f. f, λ f. f, refl) k
      Step-HasSaid {p} ms (wakes_tcp e free) k =
          Quiet-HasSaid crc wire memory Says game_id p _ [] ms
            (refl, refl, refl, λ f. cc, λ f. cc, refl) k
      Step-HasSaid {p} ms (wakes_udp e free) k =
          Quiet-HasSaid crc wire memory Says game_id p _ [] ms
            (refl, refl, refl, λ f. f, λ f. f, refl) k

      pub Runs-HasSaid :
          {p q : SubProcess R F} {out : List Sent}
          → Runs fl make_address crc wire memory p q out
          → HasSaid crc wire memory Says game_id p []
          → HasSaid crc wire memory Says game_id q (for_main out)
      Runs-HasSaid starts k = k
      Runs-HasSaid {q = r} (goes_on {out = out} {more = more} runs step) k =
          subst (HasSaid crc wire memory Says game_id r) (sym (for_main-append out more))
            (Step-HasSaid (for_main out) step (Runs-HasSaid runs k))
