-- ===== src/View.antt =====
-- common/buffer_view.hpp, class buffer_view: a reader over bytes that it does not own.
-- The array is the list of the bytes at `data_`; `_read` throws where too few are left.
pub mod Laws
use new_happy_server.Base.{
  ℕ, zero, suc, ◌+◌, ◌≡◌, Bool, true, false, not, ◌||◌, Option, none, some, List, [], ◌∷◌, ◌++◌,
  length, take, drop, ltb, ◌==◌, if◌then◌else◌,
}
use new_happy_server.Base.Words.{add_size, sub_size, le_value}
use new_happy_server.Base.Slices.{slice}

pub record View : Type 0 where
  pub bytes_at : List ℕ
  pub readpos : ℕ
  pub size_ : ℕ

-- The constructor, over all the bytes of `data`.
abbrev pub view : List ℕ → View
view bytes = record { bytes_at = bytes; readpos = 0; size_ = length bytes }

abbrev pub size : View → ℕ
size v = sub_size v.size_ v.readpos

-- The bytes between the read position and the end.
abbrev pub rest : View → List ℕ
rest v = slice v.readpos v.size_ v.bytes_at

-- `bytes()` copies what is left.
abbrev pub bytes : View → List ℕ
bytes v = slice v.readpos (v.readpos + size v) v.bytes_at

-- `n` is `sizeof(T) * count`; `none` if it returns false.
unfoldable pub read : Bool → ℕ → View → View × Option (List ℕ)
read out_is_null n v =
    if out_is_null || n == 0
    then (v, none)
    else (if ltb v.size_ (add_size v.readpos n) then (v, none) else (
      record v { readpos = add_size v.readpos n },
      some (slice v.readpos (v.readpos + n) v.bytes_at),
    ))

-- `_read<T>()` with `sizeof(T)` bytes; `none` is the exception "reading out of size".
unfoldable pub read_value : ℕ → View → Option (ℕ × View)
read_value n v =
    if ltb v.size_ (add_size v.readpos n)
    then none
    else some (
      le_value (slice v.readpos (v.readpos + n) v.bytes_at),
      record v { readpos = add_size v.readpos n },
    )

-- `read<bool>()`.
unfoldable pub read_bool : View → Option (Bool × View)
unfolding read_value
read_bool v = elim (read_value 1 v) [ none ↦ none | some (x, v') ↦ some (not (x == 0), v') ]

-- `read<std::string>()`: up to a zero byte, which is taken and not returned, or to the end.
-- `fuel` bounds the rounds: each takes a byte.
unfoldable pub read_string_loop : ℕ → List ℕ → View → Option (List ℕ × View)
unfolding read_value
read_string_loop zero tmp v = none
read_string_loop (suc fuel) tmp v =
    if ltb v.readpos v.size_
    then (elim (read_value 1 v) [
      | none ↦ none
      | some (c, v') ↦
          let more = read_string_loop fuel (tmp ++ (c ∷ [])) v' in
          if c == 0 then some (tmp, v') else more
    ])
    else some (tmp, v)

unfoldable pub read_string : View → Option (List ℕ × View)
unfolding read_string_loop
read_string v = read_string_loop (suc v.size_) [] v

unfoldable pub skip : ℕ → View → View
skip len v =
    if ltb len (size v)
    then record v { readpos = add_size v.readpos len }
    else record v { readpos = 0; size_ = 0 }

-- `std::string_view::find` of one byte and of "\r\n".
unfoldable pub find_byte : ℕ → List ℕ → Option ℕ
find_byte c [] = none
find_byte c (x ∷ xs) =
    if x == c then some 0 else (elim (find_byte c xs) [ none ↦ none | some i ↦ some (suc i) ])

unfoldable pub find_crlf : List ℕ → Option ℕ
find_crlf [] = none
find_crlf (x ∷ []) = none
find_crlf (x ∷ (y ∷ ys)) =
    let later = find_crlf (y ∷ ys) in
    if x == 13
    then (if y == 10 then some 0 else (elim later [ none ↦ none | some i ↦ some (suc i) ]))
    else (elim later [ none ↦ none | some i ↦ some (suc i) ])

-- The line without its end, or all that is left.
unfoldable pub readline : View → List ℕ × View
unfolding find_crlf
readline v = elim (find_crlf (bytes v)) [
  | none ↦ (take (size v) (bytes v), record v { readpos = add_size v.readpos (size v) })
  | some pos ↦ (take pos (bytes v), record v { readpos = add_size v.readpos (pos + 2) })
]

-- The bytes before the delimiter, which is taken too; nothing is taken where there is none.
unfoldable pub read_delim : ℕ → View → List ℕ × View
unfolding find_byte
read_delim c v = elim (find_byte c (bytes v)) [
  | none ↦ ([], v)
  | some pos ↦ (take pos (bytes v), record v { readpos = add_size v.readpos (pos + 1) })
]
