-- ===== src/Lock.antt =====
-- common/rwlock.hpp and common/spinlock.hpp: each atomic operation is a step of one thread, and the
-- threads' steps come in any order. `count` and `yield` do not change what a loop does.
pub mod Threads
pub mod Exclusion
pub mod Spin
use new_happy_server.Base.{ℕ, ◌+◌, ◌-◌, Bool, true, false, not, if◌then◌else◌}

-- The members of `rwlock`; `read_` counts threads, and there are fewer than 2 ^ 31 of them.
pub record Rwlock : Type 0 where
  pub read_ : ℕ
  pub write_ : Bool

abbrev pub new_rwlock : Rwlock
new_rwlock = record { read_ = 0; write_ = false }

-- Where a thread is: in `lock_shared` in the loop that loads `write_`, before `fetch_add`, after it, before
-- `fetch_sub`; in the loops of `lock`; or with the lock.
pub data Place : Type 0 where
  idle loads adds counted backs shares exchanges drains owns : Place

-- The next atomic operation of a thread; an idle one calls `lock` or `lock_shared`, and one with the
-- lock lets it go. The operations are `acquire` and `release`: a load may give an older value of its
-- variable, so what the code finds by a load is the choice of the step. `exchange`, `fetch_add` and
-- `fetch_sub` act on the last value.
unfoldable pub lock_step : Bool → Place → Rwlock → Place × Rwlock
lock_step choice idle s = (if choice then exchanges else loads, s)
lock_step choice loads s = (if choice then loads else adds, s)
lock_step choice adds s = (counted, record s { read_ = s.read_ + 1 })
lock_step choice counted s = (if choice then backs else shares, s)
lock_step choice backs s = (loads, record s { read_ = s.read_ - 1 })
lock_step choice shares s = (idle, record s { read_ = s.read_ - 1 })
lock_step choice exchanges s = (if s.write_ then exchanges else drains, record s { write_ = true })
lock_step choice drains s = (if choice then owns else drains, s)
lock_step choice owns s = (idle, record s { write_ = false })

-- `spin_lock`: the flag, and a thread's place.
pub data SpinPlace : Type 0 where
  outside spins inside : SpinPlace

unfoldable pub spin_step : Bool → SpinPlace → Bool → SpinPlace × Bool
spin_step enters outside flag = (if enters then spins else outside, flag)
spin_step enters spins flag = (if flag then spins else inside, true)
spin_step enters inside flag = (outside, false)
