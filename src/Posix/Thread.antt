-- ===== src/Posix/Thread.antt =====
-- posix/threadpool.cpp: class Thread, the life of one thread object.
use queued_thread_pool.Prelude.{
  ℕ, ◌+◌, ◌≡◌, refl, Bool, true, false, List, [], ◌∷◌, ◌&&◌, arith, if◌then◌else◌,
}

pub data ThreadStatus : Type 0 where
  idle running finished : ThreadStatus

-- `status`, and the history of the object: the threads that pthread_create has made for it, and
-- those that pthread_join has taken back.
pub record Thread : Type 0 where
  pub status : ThreadStatus
  pub created : ℕ
  pub taken_back : ℕ

-- `Thread::Thread`
abbrev pub new_thread : Thread
new_thread = record { status = idle; created = 0; taken_back = 0 }

-- `start`, once `status` is IDLE; the argument says whether pthread_create succeeds
launch : Thread → Bool → Thread
launch t true = record t { status = running; created = t.created + 1 }
launch t false = record t { status = finished }

start_at : Thread → Bool → ThreadStatus → Thread
unfolding launch
start_at t ok idle = launch t ok
start_at t ok _ = t

-- `start`
pub start : Thread → Bool → Thread
unfolding start_at
start t ok = start_at t ok t.status

-- `join`, while `status` is RUNNING; the argument says whether pthread_join succeeds
await : Thread → Bool → Thread
await t true = record t { status = idle; taken_back = t.taken_back + 1 }
await t false = record t { status = finished }

join_at : Thread → Bool → ThreadStatus → Thread
unfolding await
join_at t ok running = await t ok
join_at t ok _ = record t { status = idle }

-- `join`
pub join : Thread → Bool → Thread
unfolding join_at
join t ok = join_at t ok t.status

-- `is_alive`
abbrev pub is_alive : ThreadStatus → Bool
is_alive running = true
is_alive _ = false

-- `~Thread`
pub delete : Thread → Bool → Thread
unfolding join
delete t ok = if is_alive t.status then join t ok else t

pub data Use : Type 0 where
  starts joins : Bool → Use

-- The object after a sequence of calls.
unfoldable pub use_all : Thread → List Use → Thread
unfolding start join
use_all t [] = t
use_all t (starts ok ∷ us) = use_all (start t ok) us
use_all t (joins ok ∷ us) = use_all (join t ok) us

-- No call of pthread_join fails.
abbrev pub joins_succeed : List Use → Bool
joins_succeed [] = true
joins_succeed (starts ok ∷ us) = joins_succeed us
joins_succeed (joins ok ∷ us) = ok && joins_succeed us

-- One thread is out while the status is RUNNING, and none otherwise.
abbrev out : ThreadStatus → ℕ
out running = 1
out _ = 0

abbrev Balanced : Thread → Type 0
Balanced t = t.created ≡ t.taken_back + out t.status

start-Balanced : (t : Thread) (ok : Bool) → Balanced t → Balanced (start t ok)
unfolding start
start-Balanced t ok b = ground arith

join-Balanced : (t : Thread) → Balanced t → Balanced (join t true)
unfolding join
join-Balanced t b = ground arith

use_all-Balanced :
    (us : List Use) (t : Thread) → joins_succeed us ≡ true → Balanced t → Balanced (use_all t us)
unfolding use_all
use_all-Balanced [] t h b = b
use_all-Balanced (starts ok ∷ us) t h b = use_all-Balanced us (start t ok) h (start-Balanced t ok b)
use_all-Balanced (joins true ∷ us) t h b = use_all-Balanced us (join t true) h (join-Balanced t b)
use_all-Balanced (joins false ∷ us) t h b = cc

-- After any sequence of `start` and `join`, in any order and with `pthread_create` failing at will,
-- at most one thread is out, and exactly one if `is_alive`; after the destructor every thread that
-- was created has been joined. (No pthread_join fails.)
pub threads_joined :
    (us : List Use)
    → joins_succeed us ≡ true
    → let t = use_all new_thread us in
      (t.created ≡ t.taken_back + (if is_alive t.status then 1 else 0))
      × ((delete t true).created ≡ (delete t true).taken_back)
unfolding delete
threads_joined us h = ground (arith, use_all-Balanced us new_thread h refl)
