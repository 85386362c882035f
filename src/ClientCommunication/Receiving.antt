-- ===== src/ClientCommunication/Receiving.antt =====
-- What the receive handler changes, and the mutex.
use text.Mathlib.Text.{◌==◌ as str_eq}
use upzp_game_process.Prelude.{
  ℕ, ◌≡◌, refl, sym, ap, subst, ◌⊎◌, inl, inr, true, false, Option, none, some, List, [], ◌∷◌,
  if◌then◌else◌, arith, Bool-cases, Option-cases,
}
use upzp_game_process.Datagram.{Crc, Datagram}
use upzp_game_process.GameLogic.{GameLogic}
use upzp_game_process.Wire.{Wire}
use upzp_game_process.ClientUdp.{
  ClientUdp, Endpoint, DecodeResult, decoded, rejects, decode_datagram,
}
use upzp_game_process.ClientUdp.Sequence.{IsNewer, decode_datagram-IsNewer, decode_datagram_same}
use upzp_game_process.ClientCommunication.{
  ClientCommunication, done, connected, after_decode, receive_loop, handle_receive,
}

-- What a received datagram may do to one client: nothing, or an accepted input from the client's own
-- address, after which the client is answered at the sender's endpoint.
abbrev pub Changes : {F : Type 0} → Endpoint → ClientUdp F → ClientUdp F → Type 0
Changes {F} remote old new =
    (new ≡ old)
    ⊎ ((x : ClientUdp F) × (str_eq remote.address old.client.ip_v4 ≡ true)
        × IsNewer old x
        × (new ≡ connected remote x))

-- Such a change for each client of a list, in order.
abbrev pub ChangesAll : {F : Type 0} → Endpoint → List (ClientUdp F) → List (ClientUdp F) → Type 0
ChangesAll remote [] [] = Unit
ChangesAll remote (c ∷ cs) (d ∷ ds) = Changes remote c d × ChangesAll remote cs ds
ChangesAll remote _ _ = ⊥

module _ {R F : Type 0} where
  abbrev loop_clients : Option (List (ClientUdp F) × Option (GameLogic R F)) → List (ClientUdp F)
  loop_clients none = []
  loop_clients (some (cs, logic)) = cs

  not_some :
      {cs : List (ClientUdp F)} {logic : Option (GameLogic R F)}
      → ◌≡◌ {A = Option (List (ClientUdp F) × Option (GameLogic R F))} none (some (cs, logic))
      → ⊥
  not_some e = cc

  after_decode-Changes :
      (remote : Endpoint) (c : ClientUdp F) (logic : Option (GameLogic R F)) (r : DecodeResult F)
      → ((x : ClientUdp F) → r ≡ decoded true x → IsNewer c x)
      → ((x : ClientUdp F) → r ≡ decoded false x → x ≡ c)
      → str_eq remote.address c.client.ip_v4 ≡ true
      → (d : ClientUdp F) (logic' : Option (GameLogic R F))
      → after_decode remote c logic r ≡ some (d, logic')
      → Changes remote c d
  after_decode-Changes remote c logic (decoded true x) newer same from d logic' e =
      inr (x, from, newer x refl, cc)
  after_decode-Changes remote c logic (decoded false x) newer same from d logic' e =
      inl (cc (same x refl))
  after_decode-Changes remote c logic (rejects x) newer same from d logic' e = inl (cc)
  after_decode-Changes remote c logic DecodeResult.fault newer same from d logic' e = cc

module _ {R F : Type 0} (crc : Crc) (wire : Wire R F) (memory : Datagram) where
  abbrev head_result :
      List ℕ
      → ℕ
      → Endpoint
      → ClientUdp F
      → Option (GameLogic R F)
      → Option (ClientUdp F × Option (GameLogic R F))
  head_result buffer size remote c logic =
      if str_eq remote.address c.client.ip_v4
      then after_decode remote c logic (decode_datagram crc wire memory buffer size c)
      else some (c, logic)

  head_result-Changes :
      (buffer : List ℕ) (size : ℕ) (remote : Endpoint) (c : ClientUdp F)
      → (logic : Option (GameLogic R F)) (d : ClientUdp F) (logic' : Option (GameLogic R F))
      → head_result buffer size remote c logic ≡ some (d, logic')
      → Changes remote c d
  head_result-Changes buffer size remote c logic d logic' e =
      elim (Bool-cases (str_eq remote.address c.client.ip_v4)) [
        | inl from ↦
            after_decode-Changes remote c logic (decode_datagram crc wire memory buffer size c)
              (λ x. decode_datagram-IsNewer crc wire memory buffer size c)
              (λ x. decode_datagram_same crc wire memory buffer size c) from d logic' (rw from at e)
        | inr other ↦ inl (cc (rw other at e))
      ]

  receive_loop-ChangesAll :
      (buffer : List ℕ) (size : ℕ) (remote : Endpoint) (cs : List (ClientUdp F))
      → (logic : Option (GameLogic R F)) (ds : List (ClientUdp F)) (last : Option (GameLogic R F))
      → receive_loop crc wire memory buffer size remote cs logic ≡ some (ds, last)
      → ChangesAll remote cs ds
  unfolding receive_loop
  receive_loop-ChangesAll buffer size remote [] logic [] last e = tt
  receive_loop-ChangesAll buffer size remote [] logic (d ∷ ds) last e = cc
  receive_loop-ChangesAll buffer size remote (c ∷ cs) logic ds last e =
      elim (Option-cases (head_result buffer size remote c logic)) [
        | inl h ↦ absurd (not_some (rw (h, receive_loop) at e))
        | inr ((d, logic'), h) ↦
            elim (Option-cases (receive_loop crc wire memory buffer size remote cs logic')) [
              | inl k ↦ absurd (not_some (rw (h, receive_loop, k) at e))
              | inr ((es, last'), k) ↦
                  let same : some (d ∷ es, last') ≡ some (ds, last) =
                    rw (h, receive_loop, k) at e in
                  subst (ChangesAll remote (c ∷ cs)) (ap loop_clients same) (
                    head_result-Changes buffer size remote c logic d logic' h,
                    receive_loop-ChangesAll buffer size remote cs logic' es last' k,
                  )
            ]
      ]

  -- A received datagram whose handler returns changes the clients one by one: each stays as it
  -- was, or it has the sender's address, its accepted input has a greater sequence number than
  -- before, and its status goes to the sender's endpoint from now on. No client is added, lost or
  -- moved, and the mutex is free again.
  pub handle_receive-ChangesAll :
      (buffer : List ℕ) (size : ℕ) (remote : Endpoint) (cc : ClientCommunication F)
      → (logic : Option (GameLogic R F)) (next : ClientCommunication F)
      → (logic' : Option (GameLogic R F))
      → handle_receive crc wire memory buffer size remote cc logic ≡ done (next, logic')
      → ChangesAll remote cc.clients next.clients × (next.locked ≡ false)
  unfolding handle_receive
  handle_receive-ChangesAll buffer size remote comm logic next logic' e =
      elim (Option-cases (receive_loop crc wire memory buffer size remote comm.clients logic)) [
        | inl h ↦ absurd (ground (arith, h))
        | inr ((ds, last), h) ↦
            let clients : next.clients ≡ ds = ground (arith, h) in
            let free : next.locked ≡ false = ground (arith, h) in
            (
              subst (ChangesAll remote comm.clients) (sym clients)
                  (receive_loop-ChangesAll buffer size remote comm.clients logic ds last h),
              free,
            )
      ]
