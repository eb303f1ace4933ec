-- ===== src/Examples/Buffers.antt =====
-- common/buffer.hpp: the theorems at a buffer of three bytes.
use new_happy_server.Base.{ℕ, inl, inr, some, List, [], ◌∷◌, arith}
use new_happy_server.Buffer.{write_back}
use new_happy_server.Buffer.Contents.{Appends, write_back-Appends}
use new_happy_server.Examples.Inputs.{zero_runtime, three_bytes, three_bytes-IsValid}

abbrev nine : List ℕ
nine = 9 ∷ []

write_back-Appends_example :
    Appends
      (4 ∷ 5 ∷ 6 ∷ 7 ∷ [])
      three_bytes
      (write_back zero_runtime (some (4 ∷ 5 ∷ 6 ∷ 7 ∷ [])) three_bytes)
write_back-Appends_example =
    write_back-Appends zero_runtime three_bytes (4 ∷ 5 ∷ 6 ∷ 7 ∷ []) three_bytes-IsValid
      (omega arith) (inr (inl (omega arith)))
