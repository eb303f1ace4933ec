-- ===== src/Examples/Locks.antt =====
-- common/rwlock.hpp: three threads, of which two want to write.
use new_happy_server.Base.{ℕ, ◌≤◌, ◌≡◌, Bool, true, false, List, [], ◌∷◌, ◌==◌}
use new_happy_server.Lock.{new_rwlock, idle, lock_step}
use new_happy_server.Lock.Threads.{sum_of, run}
use new_happy_server.Lock.Exclusion.{has_set, is_counted, threads_at, rwlock-one_writer}

-- Thread 0 shares the lock; 1 sets `write_` and finds an older `read_`, 2 tries in vain.
abbrev turns : List (ℕ × Bool)
turns =
    (0, false)
    ∷ ((0, false)
        ∷ ((0, false)
            ∷ ((1, true)
                ∷ ((1, true) ∷ ((0, false) ∷ ((1, true) ∷ ((2, true) ∷ ((2, true) ∷ []))))))))

rwlock-one_writer_example :
    let (s, ps) = run lock_step turns new_rwlock (threads_at idle 3) in
    (sum_of has_set ps ≤ 1)
    × (s.write_ ≡ (sum_of has_set ps == 1))
    × (s.read_ ≡ sum_of is_counted ps)
rwlock-one_writer_example = rwlock-one_writer 3 turns
