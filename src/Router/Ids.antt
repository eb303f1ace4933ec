-- ===== src/Router/Ids.antt =====
-- core/worker.cpp `uuid` and core/router.cpp `worker_id`: the id of a service holds its worker.
use new_happy_server.Base.{ℕ, ◌+◌, ◌*◌, ◌/◌, ◌%◌, ◌^◌, ◌<◌, ◌≡◌, ap, ◌∙◌, arith, bit_or}
use new_happy_server.Base.Bits.{bit_or_fields, low_eight_bits}
use new_happy_server.Worker.{next_id, max_uuid}
use new_happy_server.Router.{worker_id}

pub next_id_sum :
    (workerid uuid : ℕ)
    → workerid < 256
    → next_id workerid uuid ≡ uuid % max_uuid + 1 + workerid * 2 ^ 24
unfolding next_id
next_id_sum workerid uuid h =
    let small : workerid * 2 ^ 24 % 2 ^ 32 ≡ workerid * 2 ^ 24 = omega arith in
    ap (bit_or (uuid % max_uuid + 1)) small
    ∙ bit_or_fields 24 (uuid % max_uuid + 1) workerid (omega arith)

-- The router finds the worker again from every id that a worker gives out, for any counter; the id
-- is not 0 and fits 32 bits.
pub worker_id-next_id :
    (workerid uuid : ℕ)
    → workerid < 256
    → (worker_id (next_id workerid uuid) ≡ workerid)
      × (0 < next_id workerid uuid)
      × (next_id workerid uuid < 2 ^ 32)
worker_id-next_id workerid uuid h =
    let sum = next_id_sum workerid uuid h in
    (
      omega (arith, sum, low_eight_bits (next_id workerid uuid / 2 ^ 24)),
      omega (arith, sum),
      omega (arith, sum),
    )
