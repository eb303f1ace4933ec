-- ===== src/LuaService/Lifecycle.antt =====
-- services/lua_service.cpp: in what order a worker may call a service, and what reaches its Lua code.
use new_happy_server.Base.{
  ℕ, ◌+◌, ◌^◌, ◌≤◌, ◌≡◌, ◌⊎◌, refl, sym, ap, ◌∙◌, inl, inr, Bool, true, false, not, ◌||◌, Option,
  none, some, List, [], ◌∷◌, ◌++◌, append_assoc, arith, Bool-cases, leb, ◌==◌,
}
use new_happy_server.Worker.{Message}
use new_happy_server.LuaService.{
  LuaService, Effect, starts, destroys, times, start, dispatch, on_timer, exit, destroy,
  set_callback, called, dispatched, exit_or_quit,
}

pub data Op : Type 0 where
  op_start op_timer op_exit op_destroy : Op
  op_dispatch : Bool → Message → Op
  op_set : ℕ → ℕ → Op

abbrev pub perform : Op → LuaService → LuaService × List Effect
perform op_start s = start s
perform op_timer s = on_timer s
perform op_exit s = exit s
perform op_destroy s = destroy s
perform (op_dispatch valid m) s = dispatch valid m s
perform (op_set c f) s = (set_callback c f s, [])

abbrev pub perform_all : List Op → LuaService → LuaService × List Effect
perform_all [] s = (s, [])
perform_all (op ∷ ops) s =
    let (s', effects) = perform op s in
    let (s'', further) = perform_all ops s' in (s'', effects ++ further)

abbrev pub is_starts : Effect → ℕ
is_starts (starts f) = 1
is_starts _ = 0

abbrev pub count_starts : List Effect → ℕ
count_starts [] = 0
count_starts (e ∷ es) = is_starts e + count_starts es

count_starts-append :
    (xs ys : List Effect) → count_starts (xs ++ ys) ≡ count_starts xs + count_starts ys
count_starts-append [] ys = omega arith
count_starts-append (x ∷ xs) ys = omega (arith, count_starts-append xs ys)

set_callback-same :
    (c f : ℕ) (s : LuaService)
    → ((set_callback c f s).ok_ ≡ s.ok_) × ((set_callback c f s).is_start ≡ s.is_start)
unfolding set_callback
set_callback-same c f s = ground arith

destroyed_silent :
    (op : Op) (s : LuaService)
    → s.ok_ ≡ false
    → ((perform op s).1 ≡ []) × ((perform op s).0.ok_ ≡ false)
unfolding start on_timer exit destroy dispatch
destroyed_silent op_start s h = elim (Bool-cases s.is_start) [
  | inl started ↦ rw (started, h) (refl, refl)
  | inr not_yet ↦ rw (not_yet, h) (refl, refl)
]
destroyed_silent op_timer s h = rw h (refl, refl)
destroyed_silent op_exit s h = rw h (refl, refl)
destroyed_silent op_destroy s h = rw h (refl, refl)
destroyed_silent (op_dispatch valid m) s h = rw h (refl, refl)
destroyed_silent (op_set c f) s h = (refl, (set_callback-same c f s).0 ∙ h)

destroyed_silent_all : (ops : List Op) (s : LuaService) → s.ok_ ≡ false → (perform_all ops s).1 ≡ []
destroyed_silent_all [] s h = refl
destroyed_silent_all (op ∷ ops) s h =
    let (silent, still) = destroyed_silent op s h in
    rw silent (destroyed_silent_all ops (perform op s).0 still)

destroy-ok_ : (s : LuaService) → (destroy s).0.ok_ ≡ false
unfolding destroy
destroy-ok_ s = elim (Bool-cases s.ok_) [ inl alive ↦ rw alive refl | inr dead ↦ rw dead refl ]

-- No function of another kind counts.
no_starts :
    (g : ℕ → Effect) (o : Option ℕ)
    → ((f : ℕ) → is_starts (g f) ≡ 0)
    → count_starts (called g o) ≡ 0
no_starts g none h = refl
no_starts g (some f) h = omega (arith, h f)

no_starts_dispatched :
    (valid : Bool) (m : Message) (o : Option ℕ) → count_starts (dispatched valid m o) ≡ 0
no_starts_dispatched valid m none = refl
no_starts_dispatched true m (some f) = refl
no_starts_dispatched false m (some f) =
    elim (Bool-cases (not (leb (2 ^ 31) m.session) || (m.receiver == 0))) [
      | inl quiet ↦ rw quiet refl
      | inr answers ↦ rw answers refl
    ]

no_starts_exit : (o : Option ℕ) → count_starts (exit_or_quit o) ≡ 0
no_starts_exit none = refl
no_starts_exit (some f) = refl

abbrev StartsOnce : LuaService → LuaService × List Effect → Type 0
StartsOnce s (after, effects) =
    ((count_starts effects ≡ 0) × (after.is_start ≡ s.is_start))
    ⊎ ((count_starts effects ≤ 1) × (s.is_start ≡ false) × (after.is_start ≡ true))

called-le : (o : Option ℕ) → count_starts (called starts o) ≤ 1
called-le none = omega arith
called-le (some f) = omega arith

perform-StartsOnce : (op : Op) (s : LuaService) → StartsOnce s (perform op s)
unfolding start on_timer exit destroy dispatch
perform-StartsOnce op_start s = elim (Bool-cases (s.is_start || not s.ok_)) [
  | inl skipped ↦ rw skipped (inl (refl, refl))
  | inr goes ↦
      let not_started : s.is_start ≡ false = elim (Bool-cases s.is_start) [
        | inl started ↦ absurd (ground (arith, goes, started))
        | inr not_yet ↦ not_yet
      ] in
      rw goes (inr (called-le s.start_, not_started, refl))
]
perform-StartsOnce op_timer s = elim (Bool-cases s.ok_) [
  | inl alive ↦ rw alive (inl (no_starts times s.on_timer_ (λ f. refl), refl))
  | inr dead ↦ rw dead (inl (refl, refl))
]
perform-StartsOnce op_exit s = elim (Bool-cases s.ok_) [
  | inl alive ↦ rw alive (inl (no_starts_exit s.exit_, refl))
  | inr dead ↦ rw dead (inl (refl, refl))
]
perform-StartsOnce op_destroy s = elim (Bool-cases s.ok_) [
  | inl alive ↦ rw alive (inl (no_starts destroys s.destroy_ (λ f. refl), refl))
  | inr dead ↦ rw dead (inl (refl, refl))
]
perform-StartsOnce (op_dispatch valid m) s = elim (Bool-cases s.ok_) [
  | inl alive ↦ rw alive (inl (no_starts_dispatched valid m s.dispatch_, refl))
  | inr dead ↦ rw dead (inl (refl, refl))
]
perform-StartsOnce (op_set c f) s = inl (refl, (set_callback-same c f s).1)

all-StartsOnce : (ops : List Op) (s : LuaService) → StartsOnce s (perform_all ops s)
all-StartsOnce [] s = inl (refl, refl)
all-StartsOnce (op ∷ ops) s =
    let (s', first) = perform op s in
    let sizes = count_starts-append first (perform_all ops s').1 in
    elim (perform-StartsOnce op s) [
      | inl (none_first, same) ↦ elim (all-StartsOnce ops s') [
        | inl (no_more, same') ↦ inl (omega (arith, sizes, none_first, no_more), same' ∙ same)
        | inr (one, before, after) ↦
            inr (omega (arith, sizes, none_first, one), sym same ∙ before, after)
      ]
      | inr (one, before, after) ↦ elim (all-StartsOnce ops s') [
        | inl (no_more, same') ↦ inr (omega (arith, sizes, one, no_more), before, same' ∙ after)
        | inr (two, before', after') ↦ absurd (ground (arith, after, before'))
      ]
    ]

perform_all-append :
    (xs ys : List Op) (s : LuaService)
    → (perform_all (xs ++ ys) s).1 ≡ (perform_all xs s).1 ++ (perform_all ys (perform_all xs s).0).1
perform_all-append [] ys s = refl
perform_all-append (x ∷ xs) ys s =
    let (s', effects) = perform x s in
    ap (λ t. effects ++ t) (perform_all-append xs ys s')
    ∙ sym (append_assoc effects (perform_all xs s').1 (perform_all ys (perform_all xs s').0).1)

-- Whatever calls come before and after `destroy`, and whatever callbacks are set meanwhile, nothing
-- that comes after it reaches the Lua code, asks the server to quit or answers a request; and the
-- start function is called at most once in all.
pub destroy_silences :
    (before after : List Op) (s : LuaService)
    → let effects = (perform_all (before ++ (op_destroy ∷ after)) s).1 in
      (effects ≡ (perform_all (before ++ (op_destroy ∷ [])) s).1) × (count_starts effects ≤ 1)
destroy_silences before after s =
    let s' = (perform_all before s).0 in
    let silent = destroyed_silent_all after (destroy s').0 (destroy-ok_ s') in
    (
      perform_all-append before (op_destroy ∷ after) s
          ∙ ap (λ t. (perform_all before s).1 ++ ((destroy s').1 ++ t)) silent
          ∙ sym (perform_all-append before (op_destroy ∷ []) s),
      elim (all-StartsOnce (before ++ (op_destroy ∷ after)) s) [
        | inl (none_called, same) ↦ omega (arith, none_called)
        | inr (one, was, now) ↦ one
      ],
    )
