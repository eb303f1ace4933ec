-- ===== src/Message.antt =====
-- common/message.hpp, class message, over its buffer, and what magic/lua_bind.cpp does to a message and
-- with `print`. Worker/Message is the same class for what does not look into the buffer.
pub mod Writes
pub mod Flags
use new_happy_server.Base.{
  ℕ, zero, suc, Bool, true, false, Option, none, some, List, [], ◌∷◌, ◌++◌, length, take, drop, ltb,
  if◌then◌else◌,
}
use new_happy_server.Base.Words.{sign_extend}
use new_happy_server.Buffer.{
  Runtime, Buffer, create, write_back, contents, size, clear, set_flag, clear_flag, has_flag,
  stack_capacity,
}
use new_happy_server.Logger.{LogLevel, info}
use new_happy_server.Logger.Pipeline.{Logger, logstring}
use new_happy_server.Worker.{negate, is_empty}

pub record BufferMessage : Type 0 where
  pub type_ : ℕ
  pub subtype_ : ℕ
  pub sender_ : ℕ
  pub receiver_ : ℕ
  pub sessionid_ : ℕ
  pub header_ : Option (List ℕ)
  pub data_ : Option Buffer

abbrev pub message_of : Option Buffer → BufferMessage
message_of buf = record {
  type_ = 0;
  subtype_ = 0;
  sender_ = 0;
  receiver_ = 0;
  sessionid_ = 0;
  header_ = none;
  data_ = buf;
}

unfoldable pub create_message : Runtime → ℕ → ℕ → BufferMessage
create_message rt capacity headreserved = message_of (some (create rt capacity headreserved))

-- An empty header leaves the old one.
unfoldable pub set_header : List ℕ → BufferMessage → BufferMessage
set_header header m = if is_empty header then m else record m { header_ = some header }

abbrev pub header : BufferMessage → List ℕ
header m = elim m.header_ [ none ↦ [] | some h ↦ h ]

abbrev pub message_bytes : BufferMessage → List ℕ
message_bytes m = elim m.data_ [ none ↦ [] | some b ↦ contents b ]

-- `pos` is the bit pattern of an `int`; none where `substr` throws.
unfoldable pub substr : ℕ → ℕ → BufferMessage → Option (List ℕ)
substr pos len m = elim m.data_ [
  | none ↦ some []
  | some b ↦
      let text = contents b in
      if ltb (length text) (sign_extend pos)
      then none
      else some (take len (drop (sign_extend pos) text))
]

-- None where the assertion fails.
unfoldable pub write_data : Runtime → List ℕ → BufferMessage → Option BufferMessage
write_data rt s m = elim m.data_ [
  | none ↦ none
  | some b ↦ some (record m { data_ = some (write_back rt (some s) b) })
]

abbrev pub message_size : BufferMessage → ℕ
message_size m = elim m.data_ [ none ↦ 0 | some b ↦ size b ]

-- `buffer_flag::broadcast`
abbrev pub broadcast_flag : ℕ
broadcast_flag = 8

unfoldable pub is_broadcast : BufferMessage → Bool
is_broadcast m = elim m.data_ [ none ↦ false | some b ↦ has_flag broadcast_flag b ]

unfoldable pub set_broadcast : Bool → BufferMessage → BufferMessage
set_broadcast v m = elim m.data_ [
  | none ↦ m
  | some b ↦ record m {
    data_ = some (if v then set_flag broadcast_flag b else clear_flag broadcast_flag b);
  }
]

unfoldable pub reset : BufferMessage → BufferMessage
reset m = record {
  type_ = 0;
  subtype_ = 0;
  sender_ = 0;
  receiver_ = 0;
  sessionid_ = 0;
  header_ = elim m.header_ [ none ↦ none | some h ↦ some [] ];
  data_ = elim m.data_ [ none ↦ none | some b ↦ some (clear b) ];
}

-- The functions of a message in Lua.
unfoldable pub redirect : List ℕ → ℕ → ℕ → BufferMessage → BufferMessage
unfolding set_header
redirect hdata receiver type m =
    let m' = if is_empty hdata then m else set_header hdata m in
    record m' { receiver_ = receiver; type_ = type }

unfoldable pub resend : ℕ → ℕ → List ℕ → ℕ → ℕ → BufferMessage → BufferMessage
unfolding set_header
resend sender receiver hdata sessionid type m =
    let m' = if is_empty hdata then m else set_header hdata m in
    record m' {
      sender_ = sender;
      receiver_ = receiver;
      type_ = type;
      sessionid_ = negate sessionid;
    }

-- The loop of `print`: none where `tostring` does not give a text.
unfoldable pub print_loop : Runtime → Bool → List (Option (List ℕ)) → Buffer → Option Buffer
print_loop rt first [] buf = some buf
print_loop rt first (none ∷ args) buf = none
print_loop rt first (some s ∷ args) buf =
    let tabbed = if first then buf else write_back rt (some (9 ∷ [])) buf in
    print_loop rt false args (write_back rt (some s) tabbed)

unfoldable pub print : Runtime → List (Option (List ℕ)) → Logger → Option Logger
unfolding print_loop logstring
print rt args log = elim (print_loop rt true args (create rt stack_capacity 0)) [
  | none ↦ none
  | some buf ↦ some (logstring info (contents buf) log)
]
