-- ===== src/Serialize/Appends.antt =====
-- magic/lua_serialize.cpp: the writers of one value append its code to the sink.
use new_happy_server.Base.{
  ℕ, zero, suc, ◌+◌, ◌^◌, ◌≤◌, ◌<◌, ◌≡◌, refl, sym, ap, subst, ◌∙◌, inl, inr, false, List, [], ◌∷◌,
  ◌++◌, length, length-append, append_assoc, append-nil, arith, ltb, leb, Bool-cases, le→ltb,
  ltb→lt, ltb→le,
}
use new_happy_server.Base.Words.{le_bytes}
use new_happy_server.Serialize.Sink.{Sink}
use new_happy_server.Serialize.Value.{combine_type, is_negative_int}
use new_happy_server.Serialize.Pack.{Packed, done, ◌>>=◌, wb_integer, wb_string, wb_array_size}
use new_happy_server.Serialize.Code.{
  head, integer_code, integer_cookie, integer_width, string_code, size_code,
}
use new_happy_server.Serialize.Integer.{combine_type-head, integer_cookie-lt}

module _ (k : Sink) where
  open k use {State, write, is_heap, bytes, Room, write-Room, is_heap-write}

  -- The packing has succeeded, has appended exactly `xs`, and has left the flag and the other room.
  pub record Wrote (xs : List ℕ) (n : ℕ) (s : State) (r : Packed State) : Type 0 where
    pub after : State
    pub succeeded : r ≡ done after
    pub room : Room n after
    pub appended : bytes after ≡ bytes s ++ xs
    pub same_flag : is_heap after ≡ is_heap s

  -- It does so whenever there is room for `xs`.
  abbrev pub Writes : List ℕ → State → Packed State → Type 0
  Writes xs s r = (n : ℕ) → Room (length xs + n) s → Wrote xs n s r

  pub write-Writes : (xs : List ℕ) (s : State) → Writes xs s (done (write xs s))
  write-Writes xs s n room =
      let (left, more) = write-Room xs n s room in
      record {
        after = write xs s;
        succeeded = refl;
        room = left;
        appended = more;
        same_flag = is_heap-write xs s;
      }

  pub nothing-Writes : (s : State) → Writes [] s (done s)
  nothing-Writes s n room = record {
    after = s;
    succeeded = refl;
    room = subst (λ m. Room m s) (omega arith) room;
    appended = sym (append-nil (bytes s));
    same_flag = refl;
  }

  -- One packing after the other.
  pub bind-Writes :
      (xs ys : List ℕ) (s : State) (r : Packed State) (f : State → Packed State)
      → Writes xs s r
      → ((t : State) → Writes ys t (f t))
      → Writes (xs ++ ys) s (r >>= f)
  bind-Writes xs ys s r f first then_ n room =
      let a =
        first (length ys + n) (subst (λ m. Room m s) (omega (arith, length-append xs ys)) room) in
      let b = then_ a.after n a.room in
      record {
        after = b.after;
        succeeded = ap (λ q. q >>= f) a.succeeded ∙ b.succeeded;
        room = b.room;
        appended = b.appended ∙ ap (λ zs. zs ++ ys) a.appended ∙ append_assoc (bytes s) xs ys;
        same_flag = b.same_flag ∙ a.same_flag;
      }

  pub head-Writes :
      (t c : ℕ) (s : State)
      → t < 8
      → c < 32
      → Writes (head t c ∷ []) s (done (write (combine_type t c ∷ []) s))
  head-Writes t c s h g = rw (combine_type-head t c h g) (write-Writes (head t c ∷ []) s)

  -- A head, and bytes behind it.
  pub headed-Writes :
      (t c : ℕ) (xs : List ℕ) (s : State)
      → t < 8
      → c < 32
      → Writes (head t c ∷ xs) s (done (write xs (write (combine_type t c ∷ []) s)))
  headed-Writes t c xs s h g =
      bind-Writes (head t c ∷ []) xs s _ (λ t. done (write xs t)) (head-Writes t c s h g)
        (write-Writes xs)

  -- The ladder of `wb_integer` picks the cookie and the width of the wire format.
  pub wb_integer-cookie :
      (v : ℕ) (s : State)
      → 0 < v
      → v < 2 ^ 64
      → wb_integer k v s
        ≡ write
            (le_bytes (integer_width (integer_cookie v)) v)
            (write (combine_type 2 (integer_cookie v) ∷ []) s)
  unfolding wb_integer integer_cookie integer_width
  wb_integer-cookie v s pos h = ground arith

  pub wb_integer-Writes :
      (v : ℕ) (s : State) → v < 2 ^ 64 → Writes (integer_code v) s (done (wb_integer k v s))
  unfolding integer_code
  wb_integer-Writes zero s h = unfold wb_integer in head-Writes 2 0 s (omega arith) (omega arith)
  wb_integer-Writes (suc v) s h = rw (wb_integer-cookie (suc v) s (omega arith) h) (
      headed-Writes 2 (integer_cookie (suc v)) _ s (omega arith)
        (omega (arith, integer_cookie-lt (suc v))))

  string_short :
      (str : List ℕ) (s : State)
      → 0 < length str
      → length str < 32
      → wb_string k str s ≡ write str (write (combine_type 4 (length str) ∷ []) s)
  unfolding wb_string
  string_short str s h g = ground arith

  string_word :
      (str : List ℕ) (s : State)
      → 32 ≤ length str
      → length str < 2 ^ 16
      → wb_string k str s
        ≡ write str (write (le_bytes 2 (length str)) (write (combine_type 5 2 ∷ []) s))
  unfolding wb_string
  string_word str s h g = ground arith

  string_dword :
      (str : List ℕ) (s : State)
      → 2 ^ 16 ≤ length str
      → length str < 2 ^ 31
      → wb_string k str s
        ≡ write str (write (le_bytes 4 (length str)) (write (combine_type 5 4 ∷ []) s))
  unfolding wb_string
  string_dword str s h g = ground arith

  -- A head, a length, and bytes behind them.
  measured-Writes :
      (c n : ℕ) (str : List ℕ) (s : State)
      → c < 32
      → Writes
          (head 5 c ∷ (le_bytes n (length str) ++ str))
          s
          (done (write str (write (le_bytes n (length str)) (write (combine_type 5 c ∷ []) s))))
  measured-Writes c n str s h =
      bind-Writes (head 5 c ∷ le_bytes n (length str)) str s _ (λ t. done (write str t))
        (headed-Writes 5 c (le_bytes n (length str)) s (omega arith) h) (write-Writes str)

  long_string-Writes :
      (str : List ℕ) (s : State)
      → 32 ≤ length str
      → length str < 2 ^ 31
      → Writes (string_code str) s (done (wb_string k str s))
  unfolding string_code
  long_string-Writes str s long h = elim (Bool-cases (ltb (length str) 0x10000)) [
    | inl word ↦
        rw (string_word str s long (ltb→lt _ _ word), le→ltb (length str) 32 long, word)
          (measured-Writes 2 2 str s (omega arith))
    | inr dword ↦
        rw (string_dword str s (ltb→le _ _ dword) h, le→ltb (length str) 32 long, dword)
          (measured-Writes 4 4 str s (omega arith))
  ]

  pub wb_string-Writes :
      (str : List ℕ) (s : State)
      → length str < 2 ^ 31
      → Writes (string_code str) s (done (wb_string k str s))
  unfolding string_code
  wb_string-Writes [] s h = unfold wb_string in head-Writes 4 0 s (omega arith) (omega arith)
  wb_string-Writes (x ∷ xs) s h = elim (Bool-cases (ltb (length (x ∷ xs)) 32)) [
    | inl short ↦
        rw (string_short (x ∷ xs) s (omega arith) (ltb→lt _ _ short), string_code, short)
          (headed-Writes 4 (length (x ∷ xs)) (x ∷ xs) s (omega arith) (ltb→lt _ _ short))
    | inr long ↦ long_string-Writes (x ∷ xs) s (ltb→le _ _ long) h
  ]

  pub wb_array_size-Writes :
      (n : ℕ) (s : State) → n < 2 ^ 31 → Writes (size_code n) s (done (wb_array_size k n s))
  unfolding size_code wb_array_size
  wb_array_size-Writes n s h =
      let positive : is_negative_int n ≡ false = ground arith in
      elim (Bool-cases (leb 31 n)) [
        | inl large ↦
            rw (positive, large)
              (bind-Writes (head 6 31 ∷ []) (integer_code n) s _ (λ t. done (wb_integer k n t))
                (head-Writes 6 31 s (omega arith) (omega arith))
                (λ t. wb_integer-Writes n t (omega arith)))
        | inr small ↦ rw (positive, small) (head-Writes 6 n s (omega arith) (ground arith))
      ]
