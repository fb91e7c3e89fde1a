-- ===== src/Tests/Locks.antt =====
-- The array lock of alock.c.
use smphash_table.Base.{◌<◌, ◌^◌, ◌≡◌, refl, some, List, [], ◌∷◌, arith, replicate, set, ok}
use smphash_table.Alock.{
  Alock, Call, fetched, waiting, holding, fetch, wrap, take, Reach, start, later, anderson_init,
  acquire_fetch, acquire_wrap, acquire_take,
}
use smphash_table.Alock.Order.{NoneHolds}
use smphash_table.Alock.Exclusion.{fresh_alock, Reach-Exclusive, Reach-Enters, Reach-counter}

lock_code : Unit {0}
unfolding anderson_init acquire_wrap acquire_take
lock_code = tt

abbrev lock : Alock
lock = fresh_alock 2

init_runs : anderson_init (replicate 1024 0) 2 ≡ ok lock
unfolding lock_code
init_runs = refl

-- The first thread behind its fetch, in the loop, and with the lock.
fetched_once : Reach lock ((acquire_fetch lock).1, fetched 0 ∷ [])
fetched_once = later (lock, []) _ start (fetch lock [] (omega arith))

looping : Reach lock ((acquire_fetch lock).1, waiting 0 ∷ [])
unfolding lock_code
looping = later _ _ fetched_once (wrap (acquire_fetch lock).1 0 [] [])

abbrev taken_lock : Alock
taken_lock = record (acquire_fetch lock).1 { has_lock = set lock.has_lock 0 0 }

locked : Reach lock (taken_lock, holding 0 ∷ [])
unfolding lock_code
locked = later _ _ looping (take (acquire_fetch lock).1 taken_lock 0 [] [] refl)

Reach-Exclusive_example : (◌≡◌ {A = List Call} [] []) × NoneHolds []
Reach-Exclusive_example = Reach-Exclusive 2 lock taken_lock 0 [] [] (omega arith) init_runs locked

Reach-Enters_example : (l' : Alock) × (acquire_take (acquire_fetch lock).1 0 ≡ some l')
Reach-Enters_example =
    Reach-Enters 2 lock (acquire_fetch lock).1 0 [] (omega arith) init_runs looping

Reach-counter_example : taken_lock.next_slot < 2 ^ 21
Reach-counter_example =
    Reach-counter 2 lock (taken_lock, holding 0 ∷ []) (omega arith) init_runs locked
