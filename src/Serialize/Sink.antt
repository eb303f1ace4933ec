-- ===== src/Serialize/Sink.antt =====
-- magic/lua_serialize.cpp writes through `buffer::write_back` and asks `buffer::has_flag`. This is
-- what it relies on: bytes are appended and the flag stays, while there is room.
use new_happy_server.Base.{ℕ, ◌+◌, ◌≡◌, Bool, List, ◌++◌, length}

pub record Sink : Type 1 where
  pub State : Type 0
  pub write : List ℕ → State → State
  pub is_heap : State → Bool
  pub bytes : State → List ℕ
  pub Room : ℕ → State → Type 0
  pub write-Room :
      (xs : List ℕ) (n : ℕ) (s : State)
      → Room (length xs + n) s
      → Room n (write xs s) × (bytes (write xs s) ≡ bytes s ++ xs)
  pub is_heap-write : (xs : List ℕ) (s : State) → is_heap (write xs s) ≡ is_heap s
