-- ===== src/Mockers/Arrival.antt =====
-- The bytes of the main process's mocker, as the sub-process receives them.
use Prim.Native.String.{String}
use upzp_game_process.Prelude.{
  ℕ, ◌+◌, ◌%◌, ◌^◌, ◌<◌, ◌≡◌, refl, sym, ap, ◌∙◌, true, false, Option, some, List, [], ◌∷◌, ◌++◌,
  length, arith,
}
use upzp_game_process.Doubles.{Doubles}
use upzp_game_process.Datagram.{Crc, Datagram, header_size}
use upzp_game_process.Datagram.RoundTrip.{received, payload_correctness-received}
use upzp_game_process.DatagramStream.{
  begin_seq, DatagramStream, returned, add_data, flush_data, flush_loop, round, begin_seq_step,
  find_begin_sequence, find_from, header_1_step, header_2_step, payload_step,
}
use upzp_game_process.DatagramStream.Invariant.{stream}
use upzp_game_process.DatagramStream.Framing.{delivered}
use upzp_game_process.DatagramStream.Pieces.{add_data-get_pieces}
use upzp_game_process.Game.{Game}
use upzp_game_process.GameLogic.{GameLogic}
use upzp_game_process.Wire.{Wire}
use upzp_game_process.ClientUdp.{ClientUdp}
use upzp_game_process.ClientCommunication.{ClientCommunication, done}
use upzp_game_process.MainProcessComm.{
  Peers, MainProcessComm, load_clients, use_datagram, drain, handle_receive,
}
use upzp_game_process.MainProcessComm.Roster.{player_ids}
use upzp_game_process.Mockers.{Statics, MockerWire, mock_game, mock_player_list_datagram}
use upzp_game_process.Mockers.Roster.{listed, load_clients-mock_player_list_datagram}
use upzp_game_process.Mockers.Programs.{behind_bytes, test_bytes, serve_sub_process}

module _ {R F : Type 0} (fl : Doubles R F) (make_address : String → Option String) (crc : Crc)
    (wire : Wire R F) where
  -- Two datagrams with the same version and payload bring the same clients.
  load_clients_same :
      (d e : Datagram) (p : Peers R F)
      → d.version ≡ e.version
      → d.payload ≡ e.payload
      → load_clients fl make_address wire d p ≡ load_clients fl make_address wire e p
  unfolding load_clients
  load_clients_same d e p version payload = rw (version, payload) refl

  -- The second flush, on the bytes that the mocker writes behind its datagram.
  flush-behind :
      (header n : ℕ) (d : Datagram)
      → flush_data crc (stream begin_seq behind_bytes header n d)
        ≡ returned false (stream begin_seq (0xAB ∷ []) header n d)
  unfolding flush_data flush_loop round begin_seq_step find_begin_sequence find_from header_1_step
      header_2_step payload_step
  flush-behind header n d = refl

  handle_receive-false :
      (bytes : List ℕ) (m : MainProcessComm R F) (t : DatagramStream)
      → add_data crc bytes m.stream ≡ returned false t
      → handle_receive fl make_address crc wire bytes m ≡ done (record m { stream = t })
  unfolding handle_receive drain
  handle_receive-false bytes m t e = rw (e, drain) refl

  handle_receive-true :
      (bytes : List ℕ) (m : MainProcessComm R F) (t u : DatagramStream) (q : Peers R F)
      → add_data crc bytes m.stream ≡ returned true t
      → use_datagram fl make_address crc wire t m.peers ≡ done q
      → flush_data crc t ≡ returned false u
      → handle_receive fl make_address crc wire bytes m ≡ done (record { stream = u; peers = q })
  unfolding handle_receive drain
  handle_receive-true bytes m t u q e used f = rw (e, drain, used, f, drain) refl

  use_delivered :
      (d : Datagram) (rest : List ℕ) (old : Datagram) (p : Peers R F)
      → header_size d.payload_checksum_included + length d.payload < 2 ^ 32
      → use_datagram fl make_address crc wire (delivered crc d rest old) p
        ≡ load_clients fl make_address wire (received crc old d) p
  unfolding use_datagram
  use_delivered d rest old p fits = rw (payload_correctness-received crc d old fits) refl

  -- Two pieces of bytes arrive at an empty buffer. The first changes nothing but the stream. With the
  -- second, ten clients are added, five players to the red team and five to the blue one.
  abbrev pub BringsTen :
      ℕ → ℕ → Datagram → List ℕ → List ℕ → ClientCommunication F → GameLogic R F → Game R F → Type 0
  BringsTen header n old xs ys comm l g =
      (t u : DatagramStream) × (us : List (ClientUdp F)) × (h : Game R F) × (let p : Peers R F =
          record { comm = some comm; logic = some (record l { game = some g }) } in
        handle_receive fl make_address crc wire xs
          (record { stream = stream begin_seq [] header n old; peers = p })
        ≡ done (record { stream = t; peers = p }))
      × (handle_receive fl make_address crc wire ys (record {
        stream = t;
        peers = record { comm = some comm; logic = some (record l { game = some g }) };
      })
          ≡ done (record {
            stream = u;
            peers = record {
              comm = some (record comm { clients = comm.clients ++ us; locked = false });
              logic = some (record l { game = some h });
            };
          }))
      × (length us ≡ 10)
      × (player_ids fl make_address h.red_team
          ≡ player_ids fl make_address g.red_team ++ (1000 ∷ 1001 ∷ 1002 ∷ 1003 ∷ 1004 ∷ []))
      × (player_ids fl make_address h.blue_team
          ≡ player_ids fl make_address g.blue_team ++ (2000 ∷ 2001 ∷ 2002 ∷ 2003 ∷ 2004 ∷ []))

  -- The bytes that the main process's mocker writes when a sub-process connects, cut in two anywhere
  -- before the last byte of the datagram, with a message that is shorter than 2 ^ 32 bytes less a
  -- header and reads back as it was built: a sub-process with an empty buffer, a free mutex and a
  -- game takes both pieces with no undefined behaviour. The first changes nothing but the stream.
  -- After the second there are five red players with the IDs from 1000 on and five blue ones with
  -- the IDs from 2000 on, behind those that were there, and ten more clients on the UDP side.
  pub handle_receive-serve_sub_process :
      (to_string : ℕ → String) (mw : MockerWire R F) (memory : Datagram) (statics : Statics)
      → (address : String) (header n : ℕ) (old : Datagram) (xs ys : List ℕ)
      → (comm : ClientCommunication F) (l : GameLogic R F) (g : Game R F)
      → make_address "127.0.0.1" ≡ some address
      → length (mw.finish_game (mock_game to_string 5 5 statics).0) + 16 < 2 ^ 32
      → wire.get_game (mw.finish_game (mock_game to_string 5 5 statics).0)
        ≡ some (mock_game to_string 5 5 statics).0
      → comm.locked ≡ false
      → xs ++ ys ≡ (serve_sub_process crc mw memory to_string statics).0
      → 0 < length xs
      → 5 < length ys
      → BringsTen header n old xs ys comm l g
  unfolding serve_sub_process
  handle_receive-serve_sub_process to_string mw memory statics address header n old xs ys comm l g
        home small reads free cut some_first more =
      let d : Datagram = (mock_player_list_datagram to_string mw memory 5 5 statics).0 in
      let p : Peers R F = record { comm = some comm; logic = some (record l { game = some g }) } in
      let (version, bytes, included) = listed to_string mw memory 5 5 statics (omega arith) in
      let fits : header_size d.payload_checksum_included + length d.payload < 2 ^ 32 =
        rw (included, bytes) (omega arith) in
      let (t, first, second, valid, ready) =
        add_data-get_pieces crc test_bytes d behind_bytes xs ys header n old
          (λ h. omega arith, (λ h. omega arith, (λ h. omega arith, tt))) fits cut some_first more in
      let (us, h, loaded, count, red, blue) =
        load_clients-mock_player_list_datagram to_string fl make_address address home wire mw memory
          5 5 statics comm l g (omega arith) reads free in
      let used = use_delivered d behind_bytes old p fits in
      (
        t,
        _,
        us,
        h,
        handle_receive-false xs _ t first,
        handle_receive-true ys _ (delivered crc d behind_bytes old) _ _ second
            (used
              ∙ load_clients_same (received crc old d) d p
                  (ap (λ (v : ℕ). v % 256) version ∙ sym version) refl
              ∙ loaded)
            (flush-behind _ _ _),
        count,
        red,
        blue,
      )
