-- ===== src/Examples/Texts.antt =====
-- common/string.hpp and services/lua_service.cpp: the theorems at small texts and services.
use new_happy_server.Base.{
  ℕ, ◌≤◌, ◌≡◌, ◌⊎◌, refl, true, false, none, some, List, [], ◌∷◌, ◌++◌, arith,
}
use new_happy_server.Strings.{replace, replace_loop, split}
use new_happy_server.Strings.Replace.{replace-replaced, replace_loop-never}
use new_happy_server.Strings.Split.{split-pieces, split-join}
use new_happy_server.Base.Texts.{codes}
use new_happy_server.Strings.Trim.{IsTrimmed, trim_surrounding, trim_surrounding-IsTrimmed}
use new_happy_server.LuaService.{LuaService, new_memory, set_limit}
use new_happy_server.LuaService.Allocator.{
  Request, allocates, resizes, serve_all, total, larger, memory-IsCounted,
}
use new_happy_server.LuaService.Lifecycle.{
  Op, op_start, op_timer, op_exit, op_destroy, op_set, perform_all, count_starts, destroy_silences,
}

-- "aaab" with "aa" replaced by "ab".
abbrev a_s : List ℕ
a_s = 97 ∷ (97 ∷ (97 ∷ (98 ∷ [])))

replace-replaced_example :
    replace 5 a_s (97 ∷ (97 ∷ [])) (97 ∷ (98 ∷ [])) ≡ some (97 ∷ (98 ∷ (97 ∷ (98 ∷ []))))
replace-replaced_example = replace-replaced 5 97 (97 ∷ []) (97 ∷ (98 ∷ [])) a_s (omega arith)

replace_loop-never_example : replace_loop 100 a_s [] (97 ∷ []) 0 ≡ none
replace_loop-never_example = replace_loop-never 100 0 (97 ∷ []) a_s (omega arith)

-- "/aa//b" at "/".
abbrev path : List ℕ
path = 47 ∷ (97 ∷ (97 ∷ (47 ∷ (47 ∷ (98 ∷ [])))))

abbrev parts : List (List ℕ)
parts = (97 ∷ (97 ∷ [])) ∷ ((98 ∷ []) ∷ [])

split-pieces_example : split path (47 ∷ []) ≡ parts
split-pieces_example = split-pieces path (47 ∷ [])

split-join_example : split (97 ∷ (97 ∷ (47 ∷ (98 ∷ [])))) (47 ∷ []) ≡ parts
split-join_example =
    split-join 47 parts ((omega arith, (refl, (refl, tt))), ((omega arith, (refl, tt)), tt))

abbrev state_requests : List Request
state_requests = allocates 60 ∷ (allocates 50 ∷ (resizes 0 70 ∷ []))

-- The Lua state takes 120 bytes before the limit of 100 is set; then 50 are refused, and taken after
-- a block is freed.
abbrev later_requests : List Request
later_requests = allocates 50 ∷ (resizes 1 0 ∷ (resizes 0 20 ∷ (allocates 50 ∷ [])))

memory-IsCounted_example :
    let limit : ℕ = 100 in
    let (l, blocks) = serve_all state_requests (new_memory, []) in
    let (l', blocks') = serve_all later_requests (set_limit limit l, blocks) in
    (l.mem ≡ total blocks)
    × (l'.mem ≡ total blocks')
    × ((limit ≡ 0) ⊎ (l'.mem ≤ larger limit l.mem))
memory-IsCounted_example = memory-IsCounted 100 state_requests later_requests (omega arith)

abbrev talks : LuaService
talks = record {
  ok_ = true;
  is_start = false;
  unique = false;
  start_ = some 1;
  dispatch_ = some 2;
  exit_ = none;
  destroy_ = some 4;
  on_timer_ = some 5;
}

abbrev early : List Op
early = op_start ∷ (op_set 115 7 ∷ (op_start ∷ (op_timer ∷ [])))

destroy_silences_example :
    let effects = (perform_all (early ++ (op_destroy ∷ (op_timer ∷ (op_exit ∷ [])))) talks).1 in
    (effects ≡ (perform_all (early ++ (op_destroy ∷ [])) talks).1) × (count_starts effects ≤ 1)
destroy_silences_example = destroy_silences early (op_timer ∷ (op_exit ∷ [])) talks

trim_surrounding-IsTrimmed_example : IsTrimmed (codes " a b ") (trim_surrounding (codes " a b "))
trim_surrounding-IsTrimmed_example = trim_surrounding-IsTrimmed (codes " a b ")
