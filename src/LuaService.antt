-- ===== src/LuaService.antt =====
-- services/lua_service.cpp: the allocator that counts a service's memory, and the callbacks that the
-- Lua code has set. A Lua function is a number; a call of it is an effect, and whether its result is
-- valid is an argument. What is logged is left out.
pub mod Allocator
pub mod Lifecycle
use new_happy_server.Base.{
  ℕ, ◌+◌, ◌*◌, ◌%◌, ◌^◌, Bool, true, false, not, ◌&&◌, ◌||◌, Option, none, some, List, [], ◌∷◌, ltb,
  leb, ◌==◌, if◌then◌else◌,
}
use new_happy_server.Base.Words.{add_size, sub_size}
use new_happy_server.Worker.{Message, negate}

pub record Memory : Type 0 where
  pub mem : ℕ
  pub mem_limit : ℕ
  pub mem_report : ℕ

abbrev pub new_memory : Memory
new_memory = record { mem = 0; mem_limit = 0; mem_report = 8 * 1024 * 1024 }

-- The write of `init`, after the constructor has made the Lua state with this allocator.
unfoldable pub set_limit : ℕ → Memory → Memory
set_limit limit l = record l { mem_limit = limit }

-- What the allocator does: it refuses, frees the block, or hands the request on to `realloc`.
pub data Answer : Type 0 where
  refuses frees reallocs : Answer

-- `has_block` tells whether `ptr` is not null.
unfoldable pub lalloc : Bool → ℕ → ℕ → Memory → Answer × Memory
lalloc has_block osize nsize l =
    let more = add_size l.mem nsize in
    let mem = if has_block then sub_size more osize else more in
    let over = not (l.mem_limit == 0) && ltb l.mem_limit mem in
    let grows = not has_block || ltb osize nsize in
    let report = if ltb l.mem_report mem then l.mem_report * 2 % 2 ^ 64 else l.mem_report in
    let counted = record l { mem = mem; mem_report = report } in
    if over && grows then (refuses, l) else (if nsize == 0 then frees else reallocs, counted)

-- A service and the functions that are set for it.
pub record LuaService : Type 0 where
  pub ok_ : Bool
  pub is_start : Bool
  pub unique : Bool
  pub start_ : Option ℕ
  pub dispatch_ : Option ℕ
  pub exit_ : Option ℕ
  pub destroy_ : Option ℕ
  pub on_timer_ : Option ℕ

pub data Effect : Type 0 where
  starts dispatches exits destroys times : ℕ → Effect
  responds : ℕ → ℕ → Effect
  quits : Effect

abbrev pub called : (ℕ → Effect) → Option ℕ → List Effect
called as_effect none = []
called as_effect (some f) = as_effect f ∷ []

unfoldable pub start : LuaService → LuaService × List Effect
start s =
    if s.is_start || not s.ok_
    then (s, [])
    else (record s { is_start = true }, called starts s.start_)

-- The answer to a request (a negative session) whose handler failed.
abbrev pub on_failure : Message → List Effect
on_failure m =
    if not (leb (2 ^ 31) m.session) || (m.receiver == 0)
    then []
    else responds m.sender (negate m.session) ∷ []

abbrev pub dispatched : Bool → Message → Option ℕ → List Effect
dispatched valid m none = []
dispatched valid m (some f) = dispatches f ∷ (if valid then [] else on_failure m)

unfoldable pub dispatch : Bool → Message → LuaService → LuaService × List Effect
dispatch valid m s = (s, if not s.ok_ then [] else dispatched valid m s.dispatch_)

unfoldable pub on_timer : LuaService → LuaService × List Effect
on_timer s = (s, if not s.ok_ then [] else called times s.on_timer_)

abbrev pub exit_or_quit : Option ℕ → List Effect
exit_or_quit none = quits ∷ []
exit_or_quit (some f) = exits f ∷ []

unfoldable pub exit : LuaService → LuaService × List Effect
exit s = (s, if not s.ok_ then [] else exit_or_quit s.exit_)

unfoldable pub destroy : LuaService → LuaService × List Effect
destroy s = if not s.ok_ then (s, []) else (record s { ok_ = false }, called destroys s.destroy_)

-- The characters are `s`, `m`, `e`, `d` and `t`; another one sets nothing.
unfoldable pub set_callback : ℕ → ℕ → LuaService → LuaService
set_callback c f s =
    if c == 115
    then record s { start_ = some f }
    else if c == 109
    then record s { dispatch_ = some f }
    else if c == 101
    then record s { exit_ = some f }
    else if c == 100
    then record s { destroy_ = some f }
    else if c == 116
    then record s { on_timer_ = some f }
    else s
