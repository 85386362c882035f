-- ===== src/SubProcess/Protocol.antt =====
-- What the sub-process tells the main process, in any order of its threads.
use Prim.Native.String.{String}
use upzp_game_process.Prelude.{ℕ, ◌≡◌, Bool, true, List, [], ◌∷◌, if◌then◌else◌}
use upzp_game_process.Doubles.{Doubles}
use upzp_game_process.Datagram.{Crc, Datagram}
use upzp_game_process.DatagramStream.{DatagramStream}
use upzp_game_process.SubProcessSettings.{SubProcessSettings}
use upzp_game_process.Wire.{Wire}
use upzp_game_process.MainProcessComm.{game_id_message, game_finished_message}
use upzp_game_process.SubProcess.{SubProcess}
use upzp_game_process.SubProcess.Messages.{Told}

-- What `Told` says of one message more.
module _ (id finished : List ℕ) where
  -- On a connected socket, from a call of `SendGameFinished` that is still to come on.
  abbrev Since : Bool → Bool → List (List ℕ) → Type 0
  Since linked over ms = (linked ≡ true) × (ms ≡ (if over then finished ∷ [] else []))

module _ {R F : Type 0} (crc : Crc) (wire : Wire R F) (memory : Datagram) where
  -- What `Told` says of the two messages of a game.
  abbrev Conversation : ℕ → Bool → Bool → List (List ℕ) → Type 0
  Conversation game_id =
      Told (game_id_message crc wire memory game_id) (game_finished_message crc wire memory)
