-- ===== src/Examples/Concats.antt =====
-- magic/lua_serialize.cpp, core/worker.cpp: `concat` of some values, and a timer without its service.
use new_happy_server.Base.{ℕ, ◌+◌, ◌≡◌, refl, true, false, some, List, [], ◌∷◌, arith}
use new_happy_server.Buffer.{Buffer, contents}
use new_happy_server.Serialize.Pack.{done}
use new_happy_server.Serialize.Concat.{
  Item, integer_item, string_item, table_item, no_items, item, concat, concatsafe,
}
use new_happy_server.Serialize.Concat.Text.{AllHaveText, all_texts}
use new_happy_server.Serialize.Concat.Calls.{concat-all_texts}
use new_happy_server.Worker.{find_service}
use new_happy_server.Timer.{new_wheel}
use new_happy_server.Timer.Table.{Timers, infinite, find_timer, erase_timer, on_timer}
use new_happy_server.Timer.Gone.{worker_handler, service-gone}
use new_happy_server.Examples.Inputs.{zero_runtime}

abbrev digit : ℕ → List ℕ
digit v = (48 + v) ∷ []

-- `"a"` and `{7, "b"}`
abbrev letter : Item
letter = string_item (97 ∷ [])

abbrev mixed : Item
mixed = table_item (item (integer_item 7) (item (string_item (98 ∷ [])) no_items))

concat-all_texts_example :
    let expected : List ℕ = 97 ∷ (55 ∷ (98 ∷ [])) in
    (concatsafe digit digit zero_runtime (letter ∷ (mixed ∷ [])) ≡ some (done expected))
    × ((b : Buffer) × (concat digit digit zero_runtime (letter ∷ (mixed ∷ [])) ≡ some (done b))
        × (contents b ≡ expected))
unfolding AllHaveText all_texts
concat-all_texts_example =
    concat-all_texts digit digit zero_runtime letter (mixed ∷ [])
      (omega arith, ((omega arith, (omega arith, (omega arith, tt))), tt)) (omega arith)

abbrev alone : Timers ℕ
alone = record {
  has_handler = true;
  uuid = 1;
  timers = (1, record { duration = 100; times = infinite; serviceid = 9 }) ∷ [];
  wheels = new_wheel ∷ [];
  stop = false;
  tick = 0;
  previous_tick = 1;
  services = 0;
}

service-gone_example :
    let handler = worker_handler (λ i serviceid last s. ([], s + 1)) (λ s. []) in
    let (first, between) = on_timer handler 1 alone in
    (first ≡ 100)
    × (on_timer handler 1 between ≡ (0, record alone { timers = erase_timer 1 alone.timers }))
unfolding find_timer find_service
service-gone_example =
    service-gone (λ i serviceid last s. ([], s + 1)) (λ s. []) 1 100 9 alone refl refl
