-- ===== src/Tests/Helpers.antt =====
-- The theorems about the dump, the signals' set-up and the MQTT client at concrete runs.
use rabbitmq_work.Base.{ℕ, ◌≡◌, ◌++◌, List, [], ◌∷◌, some, Bool, true}
use rabbitmq_work.Amqp.{Bytes}
use rabbitmq_work.Session.{ok}
use rabbitmq_work.Utils.Dump.{amqp_dump}
use rabbitmq_work.Utils.Dump.Reading.{Line, write_lines, read_dump}
use rabbitmq_work.Utils.Dump.RoundTrip.{amqp_dump_reads}
use rabbitmq_work.Tests.{library}

abbrev sixteen : ℕ → Bytes
sixteen b = b ∷ b ∷ b ∷ b ∷ b ∷ b ∷ b ∷ b ∷ b ∷ b ∷ b ∷ b ∷ b ∷ b ∷ b ∷ b ∷ []

-- Three equal rows, another one, and a short one.
abbrev buffer : Bytes
buffer = sixteen 65 ++ (sixteen 65 ++ (sixteen 65 ++ (sixteen 66 ++ 67 ∷ 68 ∷ [])))

abbrev all_print : ℕ → Bool
all_print _ = true

amqp_dump_reads_example :
    (ls : List Line) × (amqp_dump all_print buffer library []
      ≡ (ok tt, write_lines all_print ls []))
    × (read_dump ls ≡ some buffer)
amqp_dump_reads_example = amqp_dump_reads all_print library buffer []
