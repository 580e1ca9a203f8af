-- ===== src/SharedMutex/Loops.antt =====
-- shared_mutex.cpp: the statements that the loops are made of, and a check of them.
use queued_thread_pool.Prelude.{Bool, true, false, ◌&&◌, not}
use queued_thread_pool.SharedMutex.Modes.{
  Mode, free, shared, upgrade, exclusive, Move, before, after,
}

-- `enum`; the type of `state`
pub data Phase : Type 0 where
  reading writing : Phase

abbrev pub same_phase : Phase → Phase → Bool
same_phase reading reading = true
same_phase writing writing = true
same_phase _ _ = false

abbrev pub same_mode : Mode → Mode → Bool
same_mode free free = true
same_mode shared shared = true
same_mode upgrade upgrade = true
same_mode exclusive exclusive = true
same_mode _ _ = false

-- The rest of a loop's body. A try_ function goes on in the first way if it succeeds.
pub data Body : Type 0 where
  again : Body  -- the end, or `continue`
  call : Move → Body → Body
  try : Move → Body → Body → Body
  assert : Phase → Body → Body  -- BOOST_ASSERT(state == …)
  assign : Phase → Body → Body  -- state = …
  increment : Body → Body  -- ++count

-- A body, from a thread that owns the mutex in a mode, and with `state` as the thread may rely on:
-- each call has its precondition, `state` is written by an exclusive owner, who leaves it `reading`,
-- the assertions are what an owner may assert, and the end gives the mutex back.
unfoldable pub checked : Mode → Phase → Body → Bool
checked mode phase again = same_mode mode free && same_phase phase reading
checked mode phase (call m k) =
    same_mode mode (before m) && same_phase phase reading && checked (after m) reading k
checked mode phase (try m k l) =
    same_mode mode (before m)
    && same_phase phase reading
    && checked (after m) reading k
    && checked mode reading l
checked mode phase (assert p k) =
    not (same_mode mode free) && same_phase phase p && checked mode phase k
checked mode phase (assign p k) = same_mode mode exclusive && checked mode p k
checked mode phase (increment k) = checked mode phase k
