-- ===== src/Lib.antt =====
-- The UPZP game sub-process: a server that runs one game. Two teams of players move on a map, collect
-- point boxes, and the first team with enough points wins.
--
-- The program and its files (paths from the repository's root, all under UPZP-GameProcess/):
--
-- * datagram/datagram.cpp, the frame of every message (Datagram). `load`, `get`,
--   `payload_correctness`, `set_version`, `set_payload_checksum` and `set_payload` are `Load`, `Get`,
--   `PayloadCorrectness` and the setters. A buffer is the list of the bytes that can be read from the
--   pointer on, with the size beside it; reading more is the result `fault`, an exception is a value,
--   and the sum of the overflow test wraps at 2 ^ 32 as in the source.
-- * datagram/datagram_stream.cpp, frames out of a byte stream (DatagramStream). The state is the
--   record of the class's members. `begin_seq_step`, `header_1_step`, `header_2_step` and
--   `payload_step` are the four parts of the loop body of `FlushData`, and `round` their composition.
--   DatagramStream/Reference describes the same work as one pass over a list of bytes, without states.
--   The loop runs on fuel, one more than the length of the buffer; every further round has a shorter
--   buffer, so this is enough (DatagramStream/Termination).
-- * game_logic/player.cpp, game_logic/team.cpp and game_logic/game.cpp (Player, Team, Game, and
--   Geometry for the computations with coordinates). One function per method. `double` and `float`
--   are parameters with the operations of Doubles, of which no law is assumed; the random generator is the sequence of its results. Points are integers, and
--   Game/History bounds them, far inside an `int64_t`.
-- * game_logic/game_logic.cpp (GameLogic). The object that the threads share; each operation under
--   the mutex is one step, and `act` is the next action of the game thread; `Step` of GameLogic/Steps
--   is any step of any thread. `play` of GameLogic/Turns runs ticks with their clock values, and
--   what comes between them.
-- * client_communication/client_udp.cpp and client_communication/client_communication.cpp (ClientUdp,
--   ClientCommunication), the UDP side: inputs come in from the clients, the status of the game goes
--   out to them. The handlers of the socket and of the timer are functions on the state. Their
--   results say whether they return, throw, wait for the mutex, or have undefined behaviour.
-- * main_process_comm/main_process_comm.cpp (MainProcessComm), the TCP side: a datagram of the main
--   process brings the clients, which go to the UDP side and into the game. `drain` is the `if` and
--   the `while` of the receive handler, on fuel: the bytes in the buffer and two more, since each
--   datagram takes bytes out of it (MainProcessComm/Receive).
-- * main.cpp (SubProcess), with `Start`, `Connect` and `Stop` of the two sides: the state of the whole,
--   `boot` up to `StartGame`, the further statements of `main`, and the handlers where their threads
--   run them. `Step` of SubProcess/Steps is any step of `main`, the game thread, the TCP thread or the
--   UDP thread; a handler, an action of the game thread and a statement of `main` are one step each.
--   The program's receive handler of the TCP side frees the mutex of the clients between `AddClient`
--   and `AddPlayer`, where the UDP thread may run a handler; `Step` has no such order, and
--   SubProcess/Losing looks at it with the operations themselves. A message is sent to the main
--   process where the socket has been connected, which `linked` says.
--   What is received and whether a socket can be opened is arbitrary. A handler with undefined
--   behaviour has no step. SubProcess/Runners has the thread of a side, and `destroy` of
--   SubProcess/Closing is the destructors behind the last statement of `main`. `Runs` of
--   SubProcess/Messages is a sequence of steps with all that is sent in it.
-- * main_process_communication_mocker/tcp_communication_mocker.cpp and
--   client_communication_mocker/udp_communication_mocker.cpp, beside UPZP-GameProcess/ (Mockers): the
--   mocked roster and input, and the client's reader of a status. `MockerWire` is the half of the
--   FlatBuffers library that they use. main.cpp of each of the two programs (Mockers/Programs):
--   `serve_sub_process` is one round of the loop, `transmit` one round of the timer.
-- * sub_process_settings.cpp, client.cpp and the headers in inc/ (SubProcessSettings, Client).
-- * flatbuffers/*.fbs, beside UPZP-GameProcess/ (Wire): the tables of the messages as records.
--
-- Prelude holds the shared lists, integers, bytes and tests; Tests the runs on concrete inputs.
--
-- Not modelled: the CRC library (inc/CRC.h, the parameter `Crc`), the FlatBuffers library and the
-- headers it generates (the parameters `Wire` and `MockerWire`, whose readers and writers are arbitrary
-- functions), the standard library's conversions of numbers (`Conversions`, `to_string`), asio with its
-- sockets and timers (which handler runs next is arbitrary), the connection to the database (which
-- statements are executed is modelled), the console, and the times that `main` sleeps. Two threads that
-- use a game at the same time without the mutex are not modelled: an operation of the game is one step.
pub mod Prelude
pub mod Datagram
pub mod DatagramStream
pub mod Doubles
pub mod Client
pub mod Player
pub mod Team
pub mod Geometry
pub mod Game
pub mod GameLogic
pub mod Wire
pub mod ClientUdp
pub mod ClientCommunication
pub mod MainProcessComm
pub mod SubProcessSettings
pub mod SubProcess
pub mod Mockers
pub mod Tests
