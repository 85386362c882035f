-- ===== src/Tests/Frames.antt =====
-- Single frames.
use upzp_game_process.Prelude.{ℕ, ◌<◌, ◌≡◌, ◌≢◌, ◌↔◌, refl, List, [], ◌∷◌, ◌++◌, length, arith}
use upzp_game_process.Datagram.{loaded, fault, load, get, set_version}
use upzp_game_process.Datagram.RoundTrip.{received, load-get, version-load-get_iff}
use upzp_game_process.Datagram.Safety.{load-ne-fault, load_overruns}
use upzp_game_process.Tests.Toys.{sum_crc, memory, input_frame}

load-get_example :
    load sum_crc memory (get sum_crc input_frame ++ (9 ∷ 9 ∷ [])) 18
    ≡ (received sum_crc memory input_frame, loaded)
load-get_example = load-get sum_crc input_frame memory (9 ∷ 9 ∷ []) 18 (omega arith) (omega arith)

version-load-get_iff_example :
    let sent = set_version 300 input_frame in
    ((load sum_crc memory (get sum_crc sent) (length (get sum_crc sent))).0.version ≡ 300)
    ↔ (300 < 256)
version-load-get_iff_example =
    version-load-get_iff sum_crc input_frame memory 300 (omega arith) (omega arith)

-- A frame without a payload checksum, and with two bytes of payload.
abbrev plain_frame : List ℕ
plain_frame = 0xDA ∷ 0xAB ∷ 101 ∷ 0 ∷ 2 ∷ 0 ∷ 0 ∷ 0 ∷ 0 ∷ 0 ∷ 236 ∷ 1 ∷ 4 ∷ 1 ∷ []

load-ne-fault_example : (load sum_crc memory plain_frame 14).1 ≢ fault
load-ne-fault_example = load-ne-fault sum_crc memory plain_frame 14 (omega arith) (omega arith)

-- Twelve bytes whose length field is 2 ^ 32 - 8.
abbrev huge_length : List ℕ
huge_length = 0xDA ∷ 0xAB ∷ 101 ∷ 0 ∷ 0xF8 ∷ 0xFF ∷ 0xFF ∷ 0xFF ∷ 0 ∷ 0 ∷ 0xDF ∷ 5 ∷ []

load_overruns_example : (load sum_crc memory huge_length 12).1 ≡ fault
load_overruns_example =
    load_overruns sum_crc memory huge_length 12
      (record { long_enough = omega arith; begins = refl; checked = refl }) (omega arith)
      (omega arith) (omega arith)
