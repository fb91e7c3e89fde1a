-- ===== src/Alock.antt =====
-- alock.c: an array lock. A thread takes a slot number from a counter and waits for the flag of its
-- slot; the thread that leaves sets the flag of the next slot. An int is its bit pattern.
pub mod Order
pub mod Counter
pub mod Exclusion
use smphash_table.Base.{
  ℕ, ◌+◌, ◌-◌, ◌*◌, ◌%◌, ◌^◌, ◌<◌, ◌≡◌, Option, none, some, Bool, true, false, not, ◌&&◌, List, [],
  ◌∷◌, ◌++◌, length, get_or, set, ◌==◌, ltb, leb, if◌then◌else◌, Run, ok, ◌>>=◌, ◌>>◌, assert,
}

-- MAX_CLIENTS
abbrev pub max_clients : ℕ
max_clients = 1024

-- `struct alock`
pub record Alock : Type 0 where
  pub has_lock : List ℕ
  pub next_slot : ℕ
  pub nthread : ℕ

-- The array as it was: only the first flag is stored.
unfoldable pub anderson_init : List ℕ → ℕ → Run Alock
anderson_init flags nthread = do
  assert (leb nthread max_clients)
  ok (record { has_lock = set flags 0 1; nthread = nthread; next_slot = 0 })

-- `a % b` of an int and a positive int
abbrev pub int_mod : ℕ → ℕ → ℕ
int_mod a b = if ltb a (2 ^ 31) then a % b else (2 ^ 32 - (2 ^ 32 - a) % b) % 2 ^ 32

-- The first `__sync_fetch_and_add` of `anderson_acquire`: `me`, and the lock behind it.
abbrev pub acquire_fetch : Alock → ℕ × Alock
acquire_fetch l = (l.next_slot, record l { next_slot = (l.next_slot + 1) % 2 ^ 32 })

-- `me > 0 && (me % lock->nthread) == 0`
abbrev pub wraps : ℕ → ℕ → Bool
wraps nthread me = not (me == 0) && (ltb me (2 ^ 31) && (int_mod me nthread == 0))

-- The `if` behind it.
unfoldable pub acquire_wrap : Alock → ℕ → Alock
acquire_wrap l me =
    if wraps l.nthread me
    then record l { next_slot = (l.next_slot + 2 ^ 32 - l.nthread) % 2 ^ 32 }
    else l

-- One test of the `while` loop, and the store behind the loop; `none` if the thread waits on.
unfoldable pub acquire_take : Alock → ℕ → Option Alock
acquire_take l me =
    if get_or l.has_lock me 0 == 0 then none else some (record l { has_lock = set l.has_lock me 0 })

unfoldable pub anderson_release : Alock → ℕ → Alock
anderson_release l me = record l { has_lock = set l.has_lock (int_mod (me + 1) l.nthread) 1 }

-- Where a thread stands: behind the first fetch, in the loop, or with the lock.
pub data Call : Type 0 where
  fetched waiting holding : ℕ → Call

-- The threads between the first fetch of `anderson_acquire` and the end of `anderson_release` stand
-- in the order of their fetches; any of them may take the next step. No more than nthread threads
-- use the lock.
pub data Step : Alock × List Call → Alock × List Call → Type 0 where
  fetch :
      (l : Alock) (calls : List Call)
      → length calls < l.nthread
      → Step (l, calls) ((acquire_fetch l).1, calls ++ fetched (acquire_fetch l).0 ∷ [])
  wrap :
      (l : Alock) (me : ℕ) (before after : List Call)
      → Step
          (l, before ++ fetched me ∷ after)
          (acquire_wrap l me, before ++ waiting (int_mod me l.nthread) ∷ after)
  take :
      (l l' : Alock) (me : ℕ) (before after : List Call)
      → acquire_take l me ≡ some l'
      → Step (l, before ++ waiting me ∷ after) (l', before ++ holding me ∷ after)
  leave :
      (l : Alock) (me : ℕ) (before after : List Call)
      → Step (l, before ++ holding me ∷ after) (anderson_release l me, before ++ after)

-- What can happen to a lock after `anderson_init` on a cleared array.
pub data Reach (l₀ : Alock) : Alock × List Call → Type 0 where
  start : Reach l₀ (l₀, [])
  later : (s s' : Alock × List Call) → Reach l₀ s → Step s s' → Reach l₀ s'
