-- ===== src/Serialize/Whole.antt =====
-- magic/lua_serialize.cpp: the argument list of `pack` and the values of `unpack`.
use new_happy_server.Base.{
  ℕ, zero, suc, ◌+◌, ◌*◌, ◌≤◌, ◌≡◌, ap, ◌∙◌, List, [], ◌∷◌, ◌++◌, length, length-append, arith,
}
use new_happy_server.View.{View}
use new_happy_server.View.Laws.{read_short}
use mathlib.Core.List.{map}
use new_happy_server.Serialize.Sink.{Sink}
use new_happy_server.Serialize.Value.{Value}
use new_happy_server.Serialize.Pack.{pack_all}
use new_happy_server.Serialize.Unpack.{ok, ◌>>=◌, unpack_one, unpack_all}
use new_happy_server.Serialize.Code.{code, Fits, rebuilt}
use new_happy_server.Serialize.Appends.{Wrote, Writes, nothing-Writes, bind-Writes}
use new_happy_server.Serialize.Written.{pack_one-Writes}
use new_happy_server.Serialize.Scalars.{Ahead, Reads}
use new_happy_server.Serialize.RoundTrip.{value-Reads, with_fuel, code_pos}

abbrev pub list_code : List Value → List ℕ
list_code [] = []
list_code (v ∷ vs) = code v ++ list_code vs

abbrev pub FitsList : List Value → Type 0
FitsList [] = Unit {0}
FitsList (v ∷ vs) = Fits 0 v × FitsList vs

pub pack_all-Writes :
    (k : Sink) (vs : List Value) (s : k.State)
    → FitsList vs
    → Writes k (list_code vs) s (pack_all k vs s)
unfolding pack_all
pack_all-Writes k [] s h = nothing-Writes k s
pack_all-Writes k (v ∷ vs) s h =
    bind-Writes k (code v) (list_code vs) s _ _ (pack_one-Writes k 0 v s h.0)
      (λ t. pack_all-Writes k vs t h.1)

-- Into any sink with room for it and `n` more bytes, values that fit are packed with success, and what
-- is appended is exactly their code; the room for `n` bytes is left, and the heap flag stays.
pub pack_all-Wrote :
    (k : Sink) (vs : List Value) (s : k.State) (n : ℕ)
    → FitsList vs
    → k.Room (length (list_code vs) + n) s
    → Wrote k (list_code vs) n s (pack_all k vs s)
pack_all-Wrote k vs s n h room = pack_all-Writes k vs s h n room

-- A value that `unpack_one` gives is the next of the list.
unpack_all_step :
    (fuel : ℕ) (w w' : View) (x : Value)
    → unpack_one (suc fuel) w ≡ ok (x, w')
    → unpack_all (suc fuel) w ≡ (unpack_all fuel w' >>= λ xs. ok (x ∷ xs))
unfolding unpack_one unpack_all
unpack_all_step fuel w w' x e = ground arith

-- Where the code of a list of values that fit, fewer than 2 ^ 31 bytes, is what is left, `unpack` with three rounds of fuel for
-- each byte, and one more, gives these values, tables rebuilt.
pub unpack_all-list_code :
    (vs : List Value) (fuel : ℕ) {w : View}
    → FitsList vs
    → 3 * length (list_code vs) + 1 ≤ fuel
    → Ahead (list_code vs) w
    → unpack_all fuel w ≡ ok (map rebuilt vs)
unfolding unpack_all
unpack_all-list_code vs zero h e a = absurd (omega arith)
unpack_all-list_code [] (suc fuel) h e a =
    rw (read_short 1 a.here (omega arith) (omega arith), unpack_all)
unpack_all-list_code (v ∷ vs) (suc fuel) {w} h e a =
    let pos = code_pos 0 v h.0 in
    let len = length-append (code v) (list_code vs) in
    let (w', got, after) =
      with_fuel (λ f. Reads (unpack_one f w) (rebuilt v) (list_code vs)) (length (code v))
        (suc fuel) (λ f k. value-Reads 0 v f (list_code vs) h.0 k a) pos (omega (arith, len)) in
    unpack_all_step fuel w w' (rebuilt v) got
    ∙ ap (λ r. r >>= λ xs. ok (rebuilt v ∷ xs))
        (unpack_all-list_code vs fuel h.1 (omega (arith, len, pos)) after)
