-- ===== src/Alarm/System.antt =====
-- alarm_cond.cpp: `alarm_thread` and `main`, interleaved. A thread's step reaches from one access to
-- `alarm_mutex` to the next, or one turn of the alarm thread's loop.
use queued_thread_pool.Prelude.{
  ℕ, ◌+◌, ◌-◌, ◌≡◌, Bool, true, false, Option, none, some, List, [], ◌∷◌, ◌++◌, ◌==◌, ◌||◌, ltb,
  not, if◌then◌else◌,
}
use queued_thread_pool.Alarm.Queue.{Alarm, insert, new_longest}

-- Where the alarm thread stands.
pub data ThreadPc : Type 0 where
  starting : ThreadPc  -- before `unique_lock lk(alarm_mutex)`
  top : ThreadPc  -- at the top of the `do`, with the mutex
  idle : ThreadPc  -- in `alarm_cond.wait(lk)`
  idle_woken : ThreadPc  -- in it, before it has the mutex back
  timed : Alarm → ℕ → ℕ → ThreadPc  -- in `wait_for(lk, timeleft)`: the alarm, `timeleft`, the deadline
  timed_woken : Alarm → ℕ → ℕ → ThreadPc  -- in it, woken, before it has the mutex back
  timed_out : Alarm → ThreadPc  -- in it, with the status `timeout`, before it has the mutex back
  done : ThreadPc

-- Where `main` stands.
pub data MainPc : Type 0 where
  reading : MainPc  -- at `getline`
  sleeping : ℕ → MainPc  -- in `sleep_for`, until this time
  closing : MainPc  -- before it takes the mutex to set `enabled`
  joining : MainPc  -- at `scheduler.join()`
  exited : MainPc

-- The shared data, the clock, and a history of the alarms.
pub record System : Type 0 where
  pub list : List Alarm  -- `alarm_list`
  pub current : ℕ  -- `current_alarm`
  pub longest : Option Alarm
  pub enabled : Bool
  pub clock : ℕ
  pub pc : ThreadPc
  pub main_pc : MainPc
  pub last : ℕ  -- `last` in `main`
  pub entered : List Alarm
  pub handled : List (Alarm × ℕ)  -- with the clock's reading
  pub lost : List Alarm  -- taken from the list, and neither handled nor put back

-- `notify_one` and `notify_all` on `alarm_cond`, on which only the alarm thread waits
abbrev pub rouse : ThreadPc → ThreadPc
rouse idle = idle_woken
rouse (timed a left d) = timed_woken a left d
rouse starting = starting
rouse top = top
rouse idle_woken = idle_woken
rouse (timed_woken a left d) = timed_woken a left d
rouse (timed_out a) = timed_out a
rouse done = done

-- `alarm_insert`, but for what it returns
unfoldable pub alarm_insert : System → Alarm → System
alarm_insert s a =
    let early = s.current == 0 || ltb a.time s.current in
    record s {
      list = insert a s.list;
      longest = new_longest a s.list s.longest;
      current = if early then a.time else s.current;
      pc = if early then rouse s.pc else s.pc;
    }

-- `longest->time`, which `alarm_insert` returns
abbrev pub time_of : Option Alarm → ℕ
time_of none = 0
time_of (some a) = a.time

abbrev pub handle : System → Alarm → System
handle s a = record s { pc = top; handled = s.handled ++ (a, s.clock) ∷ [] }

-- The first alarm, `rest` being what follows it: it is handled, or waited for.
abbrev pub take : System → Alarm → List Alarm → System
take s a rest =
    if ltb s.clock a.time
    then record s {
      list = rest;
      current = a.time;
      pc = timed a (a.time - s.clock) (s.clock + (a.time - s.clock));
    }
    else handle (record s { list = rest }) a

-- `while (enabled && alarm_list == NULL)`, and what follows it
abbrev pub look : System → List Alarm → System
look s [] = record s { pc = if s.enabled then idle else done }
look s (a ∷ rest) = if s.enabled then take s a rest else record s { pc = done }

-- `while (enabled && alarm->time == current_alarm)` after a wakeup, and what follows it
abbrev pub resume : System → Alarm → ℕ → System
resume s a left =
    if not s.enabled
    then record s { pc = done; lost = s.lost ++ a ∷ [] }
    else if a.time == s.current
    then record s { pc = timed a left (s.clock + left) }
    else record (alarm_insert s a) { pc = top }

-- After a timeout
abbrev pub expire : System → Alarm → System
expire s a = if s.enabled then handle s a else record s { pc = done; lost = s.lost ++ a ∷ [] }

-- One step of `alarm_thread`
unfoldable pub run : System → ThreadPc → Option System
unfolding alarm_insert
run s starting = some (record s { pc = top })
run s top = some (look (record s { current = 0 }) s.list)
run s idle = none
run s idle_woken = some (look s s.list)
run s (timed a left d) = none
run s (timed_woken a left d) = some (resume s a left)
run s (timed_out a) = some (expire s a)
run s done = none

-- The time of `wait_for` is over: it returns `timeout`, also if it was woken too late.
unfoldable pub time_out : System → ThreadPc → Option System
time_out s (timed a left d) = if ltb s.clock d then none else some (record s { pc = timed_out a })
time_out s (timed_woken a left d) =
    if ltb s.clock d then none else some (record s { pc = timed_out a })
time_out s _ = none

-- The alarm thread holds `alarm_mutex` between two turns.
abbrev pub holds : ThreadPc → Bool
holds top = true
holds _ = false

-- `main`, for a line that gives a number of seconds and a message
unfoldable pub enter : System → MainPc → ℕ → ℕ → Option System
unfolding alarm_insert
enter s reading name seconds =
    let a : Alarm = record { name = name; seconds = seconds; time = s.clock + seconds } in
    if holds s.pc
    then none
    else some (record (alarm_insert s a) {
      last = time_of (new_longest a s.list s.longest);
      entered = s.entered ++ a ∷ [];
    })
enter s _ name seconds = none

-- `main`, at the end of the input; whether the argument `--wait` was given
unfoldable pub end_input : System → MainPc → Bool → Option System
end_input s reading true = some (record s { main_pc = sleeping (s.clock + (s.last - s.clock)) })
end_input s reading false = some (record s { main_pc = closing })
end_input s _ b = none

-- `scheduler.join()`
abbrev pub join : System → ThreadPc → Option System
join s done = some (record s { main_pc = exited })
join s _ = none

-- `main`, after the input
unfoldable pub close : System → MainPc → Option System
close s reading = none
close s (sleeping t) = if ltb s.clock t then none else some (record s { main_pc = closing })
close s closing =
    if holds s.pc
    then none
    else some (record s { enabled = false; pc = rouse s.pc; main_pc = joining })
close s joining = join s s.pc
close s exited = none

pub data Action : Type 0 where
  ticks runs times_out stirs closes : Action
  enters : ℕ → ℕ → Action
  ends_input : Bool → Action

-- One step; `none` if it cannot be made.
unfoldable pub step : Action → System → Option System
unfolding run time_out enter end_input close
step ticks s = some (record s { clock = s.clock + 1 })
step runs s = run s s.pc
step times_out s = time_out s s.pc
step stirs s = some (record s { pc = rouse s.pc })
step closes s = close s s.main_pc
step (enters name seconds) s = enter s s.main_pc name seconds
step (ends_input wait) s = end_input s s.main_pc wait

-- The program's start, with the clock at `now`
abbrev pub init : ℕ → System
init now = record {
  list = [];
  current = 0;
  longest = none;
  enabled = true;
  clock = now;
  pc = starting;
  main_pc = reading;
  last = 0;
  entered = [];
  handled = [];
  lost = [];
}

pub data Reach (now : ℕ) : System → Type 0 where
  start : Reach now (init now)
  next : {s t : System} (a : Action) → Reach now s → step a s ≡ some t → Reach now t
