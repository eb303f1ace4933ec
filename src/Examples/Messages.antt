-- ===== src/Examples/Messages.antt =====
-- common/message.hpp and `print` of magic/lua_bind.cpp: the theorems at small messages.
use new_happy_server.Base.{ℕ, ◌≡◌, refl, true, some, List, [], ◌∷◌, arith}
use new_happy_server.Base.Texts.{codes}
use new_happy_server.Buffer.{create}
use new_happy_server.Examples.Inputs.{zero_runtime}
use new_happy_server.Logger.{info}
use new_happy_server.Logger.Pipeline.{new_logger, logstring}
use new_happy_server.Message.{
  BufferMessage, create_message, message_bytes, is_broadcast, set_broadcast, header, print,
  message_of,
}
use new_happy_server.Message.Writes.{write_all, write_all-joined, print-tab_joined}
use new_happy_server.Message.Flags.{broadcast-set_broadcast}

abbrev two_texts : List (List ℕ)
two_texts = codes "ab" ∷ (codes "c" ∷ [])

write_all-joined_example :
    (n : BufferMessage) × (write_all zero_runtime two_texts (create_message zero_runtime 64 14)
      ≡ some n)
    × (message_bytes n ≡ codes "abc")
write_all-joined_example =
    write_all-joined zero_runtime two_texts 64 14 (omega arith) (omega arith) (omega arith)

print-tab_joined_example :
    print zero_runtime (some (codes "ab") ∷ (some (codes "c") ∷ [])) new_logger
    ≡ some (logstring info (97 ∷ (98 ∷ (9 ∷ (99 ∷ [])))) new_logger)
print-tab_joined_example = print-tab_joined zero_runtime two_texts new_logger (omega arith)

abbrev one_message : BufferMessage
one_message = message_of (some (create zero_runtime 64 14))

broadcast-set_broadcast_example :
    (is_broadcast (set_broadcast true one_message) ≡ true)
    × (message_bytes (set_broadcast true one_message) ≡ message_bytes one_message)
    × (header (set_broadcast true one_message) ≡ header one_message)
broadcast-set_broadcast_example =
    broadcast-set_broadcast true one_message (create zero_runtime 64 14) refl
