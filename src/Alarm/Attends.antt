-- ===== src/Alarm/Attends.antt =====
-- alarm_cond.cpp: the invariant of the shared data, and alarm_insert.
use queued_thread_pool.Prelude.{
  ℕ, ◌+◌, ◌≤◌, ◌<◌, ◌≡◌, Bool, true, false, Option, List, [], ◌∷◌, ◌++◌, ◌||◌, ◌==◌, ltb, arith,
  inl, inr, Bool-cases,
}
use queued_thread_pool.Alarm.Queue.{
  Alarm, insert, Ascends, Ascends-le, insert-Ascends, last_or, longest-insert, insert≢[],
}
use queued_thread_pool.Alarm.System.{
  ThreadPc, idle, idle_woken, timed, timed_woken, timed_out, System, rouse, alarm_insert,
}

-- What holds of the shared data while the alarm thread stands at `pc`.
abbrev pub Attends : List Alarm → ℕ → Bool → ℕ → ThreadPc → Type 0
Attends list current enabled clock idle = (list ≡ []) × (current ≡ 0) × (enabled ≡ true)
Attends list current enabled clock (timed a left d) =
    (current ≡ a.time)
    × (0 < a.time)
    × Ascends a.time list
    × (a.time ≤ d)
    × (a.time ≤ clock + left)
    × (enabled ≡ true)
Attends list current enabled clock (timed_woken a left d) =
    (0 < current)
    × (current ≤ a.time)
    × Ascends current list
    × (a.time ≤ d)
    × (a.time ≤ clock + left)
Attends list current enabled clock (timed_out a) = (0 < a.time) × (a.time ≤ clock)
Attends list current enabled clock idle_woken = list ≡ [] → current ≡ 0
Attends list current enabled clock _ = Unit

-- Every alarm was handled at its time or later.
abbrev pub Punctual : List (Alarm × ℕ) → Type 0
Punctual [] = Unit
Punctual ((a, t) ∷ l) = (a.time ≤ t) × Punctual l

pub Punctual-append :
    (l : List (Alarm × ℕ)) (a : Alarm) (t : ℕ)
    → Punctual l
    → a.time ≤ t
    → Punctual (l ++ (a, t) ∷ [])
Punctual-append [] a t p h = (h, tt)
Punctual-append ((b, u) ∷ l) a t p h = (p.0, Punctual-append l a t p.1 h)

-- What holds of the alarms, wherever the threads stand.
pub record Shared (list : List Alarm) (longest : Option Alarm) (clock : ℕ)
    (handled : List (Alarm × ℕ)) : Type 0 where
  pub ordered : Ascends 1 list
  pub longest_last : last_or longest list ≡ longest
  pub ticking : 0 < clock
  pub punctual : Punctual handled

pub record Good (s : System) : Type 0 where
  pub shared : Shared s.list s.longest s.clock s.handled
  pub attends : Attends s.list s.current s.enabled s.clock s.pc

pub Attends-rouse :
    (list : List Alarm) (current : ℕ) (enabled : Bool) (clock : ℕ) (pc : ThreadPc)
    → Attends list current enabled clock pc
    → (e : Bool) → Attends list current e clock (rouse pc)
Attends-rouse list current enabled clock idle h e = λ z. h.1
Attends-rouse list current enabled clock idle_woken h e = h
Attends-rouse list current enabled clock (timed a left d) h e =
    (omega arith, omega arith, Ascends-le current a.time list (omega arith) h.2, h.3, h.4)
Attends-rouse list current enabled clock (timed_woken a left d) h e = h
Attends-rouse list current enabled clock (timed_out a) h e = h
Attends-rouse list current enabled clock _ h e = tt

pub Attends-tick :
    (list : List Alarm) (current : ℕ) (enabled : Bool) (clock : ℕ) (pc : ThreadPc)
    → Attends list current enabled clock pc
    → Attends list current enabled (clock + 1) pc
Attends-tick list current enabled clock (timed a left d) h =
    (h.0, h.1, h.2, h.3, omega (arith, h.4), h.5)
Attends-tick list current enabled clock (timed_woken a left d) h =
    (h.0, h.1, h.2, h.3, omega (arith, h.4))
Attends-tick list current enabled clock (timed_out a) h = (h.0, omega (arith, h.1))
Attends-tick list current enabled clock idle h = h
Attends-tick list current enabled clock idle_woken h = h
Attends-tick list current enabled clock _ h = tt

-- An alarm is inserted that is not to wake the thread.
Attends-later :
    (list : List Alarm) (current : ℕ) (enabled : Bool) (clock : ℕ) (pc : ThreadPc) (a : Alarm)
    → (current == 0 || ltb a.time current) ≡ false
    → Attends list current enabled clock pc
    → Attends (insert a list) current enabled clock pc
Attends-later list current enabled clock idle a e h = ground (arith, h.1)
Attends-later list current enabled clock (timed b left d) a e h =
    (h.0, h.1, insert-Ascends b.time a list (ground (arith, h.0)) h.2, h.3, h.4, h.5)
Attends-later list current enabled clock (timed_woken b left d) a e h =
    (h.0, h.1, insert-Ascends current a list (ground arith) h.2, h.3, h.4)
Attends-later list current enabled clock (timed_out b) a e h = h
Attends-later list current enabled clock idle_woken a e h = λ z. absurd (insert≢[] a list z)
Attends-later list current enabled clock _ a e h = tt

-- An alarm is inserted that wakes it.
Attends-earlier :
    (list : List Alarm) (current : ℕ) (enabled : Bool) (clock : ℕ) (a b : Alarm) (left d : ℕ)
    → 0 < a.time
    → (current == 0 || ltb a.time current) ≡ true
    → Attends list current enabled clock (timed_woken b left d)
    → Attends (insert a list) a.time enabled clock (timed_woken b left d)
Attends-earlier list current enabled clock a b left d z e h =
    let lt : a.time < current = ground (arith, h.0) in
    (
      z,
      omega (arith, h.1),
      insert-Ascends a.time a list (omega arith) (Ascends-le a.time current list (omega arith) h.2),
      h.3,
      h.4,
    )

Attends-early :
    (list : List Alarm) (current : ℕ) (enabled : Bool) (clock : ℕ) (pc : ThreadPc) (a : Alarm)
    → 0 < a.time
    → (current == 0 || ltb a.time current) ≡ true
    → Attends list current enabled clock pc
    → Attends (insert a list) a.time enabled clock (rouse pc)
Attends-early list current enabled clock idle a z e h = λ y. absurd (insert≢[] a list y)
Attends-early list current enabled clock idle_woken a z e h = λ y. absurd (insert≢[] a list y)
Attends-early list current enabled clock (timed b left d) a z e h =
    Attends-earlier list current enabled clock a b left d z e
      (Attends-rouse list current enabled clock (timed b left d) h enabled)
Attends-early list current enabled clock (timed_woken b left d) a z e h =
    Attends-earlier list current enabled clock a b left d z e h
Attends-early list current enabled clock (timed_out b) a z e h = h
Attends-early list current enabled clock _ a z e h = tt

pub insert-Good : (s : System) (a : Alarm) → 0 < a.time → Good s → Good (alarm_insert s a)
unfolding alarm_insert
insert-Good s a z g = record {
  shared = record {
    ordered = insert-Ascends 1 a s.list z g.shared.ordered;
    longest_last = longest-insert a s.list s.longest g.shared.longest_last;
    ticking = g.shared.ticking;
    punctual = g.shared.punctual;
  };
  attends = elim (Bool-cases (s.current == 0 || ltb a.time s.current)) [
    | inl e ↦ rw (e) (Attends-early s.list s.current s.enabled s.clock s.pc a z e g.attends)
    | inr e ↦ rw (e) (Attends-later s.list s.current s.enabled s.clock s.pc a e g.attends)
  ];
}
