-- ===== src/Alarm/Waiting.antt =====
-- alarm_cond.cpp: the threads' steps preserve the invariant; what follows from it.
use queued_thread_pool.Prelude.{
  ℕ, ◌+◌, ◌≤◌, ◌<◌, ◌≡◌, refl, Bool, true, false, Option, List, [], ◌∷◌, ◌++◌, ◌==◌, not, ltb,
  arith, inl, inr, Bool-cases, if_both, sym, subst, After, After-lock, After-some,
}
use queued_thread_pool.Alarm.Queue.{Alarm, Ascends, Ascends-le, last_or, last_or-rest}
use queued_thread_pool.Alarm.System.{
  ThreadPc, starting, top, idle, idle_woken, timed, timed_woken, timed_out, done, MainPc, reading,
  sleeping, closing, joining, exited, System, alarm_insert, take, look, resume, expire, run,
  time_out, holds, enter, end_input, join, close, Action, ticks, runs, times_out, stirs, closes,
  enters, ends_input, step, Reach, start, next,
}
use queued_thread_pool.Alarm.Attends.{
  Attends, Punctual, Punctual-append, Shared, Good, Attends-rouse, Attends-tick, insert-Good,
}

Shared-handle :
    (list : List Alarm) (longest : Option Alarm) (clock : ℕ) (handled : List (Alarm × ℕ))
    (a : Alarm)
    → a.time ≤ clock
    → Shared list longest clock handled
    → Shared list longest clock (handled ++ (a, clock) ∷ [])
Shared-handle list longest clock handled a h g = record {
  ordered = g.ordered;
  longest_last = g.longest_last;
  ticking = g.ticking;
  punctual = Punctual-append handled a clock g.punctual h;
}

Shared-rest :
    (rest : List Alarm) (longest : Option Alarm) (clock : ℕ) (handled : List (Alarm × ℕ))
    (a : Alarm)
    → Shared (a ∷ rest) longest clock handled
    → Shared rest longest clock handled
Shared-rest rest longest clock handled a g = record {
  ordered = Ascends-le 1 a.time rest g.ordered.0 g.ordered.1;
  longest_last = last_or-rest longest a rest g.longest_last;
  ticking = g.ticking;
  punctual = g.punctual;
}

take-Good :
    (s : System) (a : Alarm) (rest : List Alarm)
    → s.enabled ≡ true
    → Shared (a ∷ rest) s.longest s.clock s.handled
    → Good (take s a rest)
take-Good s a rest e g =
    let shared : Shared rest s.longest s.clock s.handled =
      Shared-rest rest s.longest s.clock s.handled a g in
    if_both Good (ltb s.clock a.time) _ _
      (λ h. record {
        shared = shared;
        attends = (refl, omega (arith, g.ordered.0), g.ordered.1, omega arith, omega arith, e);
      })
      (λ h. record {
        shared = Shared-handle rest s.longest s.clock s.handled a (ground arith) shared;
        attends = tt;
      })

look-Good :
    (s : System) (list : List Alarm)
    → list ≡ s.list
    → (s.list ≡ [] → s.current ≡ 0)
    → Shared s.list s.longest s.clock s.handled
    → Good (look s list)
look-Good s [] e z g = elim (Bool-cases s.enabled) [
  | inl h ↦ rw (h) record { shared = g; attends = (sym e, z (sym e), refl) }
  | inr h ↦ rw (h) record { shared = g; attends = tt }
]
look-Good s (a ∷ rest) e z g =
    if_both Good s.enabled _ _
      (λ h. take-Good s a rest h (subst (λ l. Shared l s.longest s.clock s.handled) (sym e) g))
      (λ h. record { shared = g; attends = tt })

resume-Good :
    (s : System) (a : Alarm) (left d : ℕ)
    → s.pc ≡ timed_woken a left d
    → Good s
    → Good (resume s a left)
resume-Good s a left d e g =
    let h : Attends s.list s.current s.enabled s.clock (timed_woken a left d) =
      subst (Attends s.list s.current s.enabled s.clock) e g.attends in
    if_both Good (not s.enabled) _ _ (λ f. record { shared = g.shared; attends = tt })
      (λ f.
        if_both Good (a.time == s.current) _ _
          (λ k. record {
            shared = g.shared;
            attends = (
              ground arith,
              omega (arith, h.0, h.1),
              Ascends-le a.time s.current s.list (ground arith) h.2,
              omega (arith, h.4),
              omega (arith, h.4),
              ground arith,
            );
          })
          (λ k. record {
            shared = (insert-Good s a (omega (arith, h.0, h.1)) g).shared;
            attends = tt;
          }))

expire-Good : (s : System) (a : Alarm) → s.pc ≡ timed_out a → Good s → Good (expire s a)
expire-Good s a e g =
    let h : Attends s.list s.current s.enabled s.clock (timed_out a) =
      subst (Attends s.list s.current s.enabled s.clock) e g.attends in
    if_both Good s.enabled _ _
      (λ f. record {
        shared = Shared-handle s.list s.longest s.clock s.handled a h.1 g.shared;
        attends = tt;
      })
      (λ f. record { shared = g.shared; attends = tt })

run-Good : (s : System) (pc : ThreadPc) → s.pc ≡ pc → Good s → After Good (run s pc)
unfolding run
run-Good s starting e g = record { shared = g.shared; attends = tt }
run-Good s top e g = look-Good (record s { current = 0 }) s.list refl (λ z. refl) g.shared
run-Good s idle e g = tt
run-Good s idle_woken e g =
    look-Good s s.list refl (subst (Attends s.list s.current s.enabled s.clock) e g.attends)
      g.shared
run-Good s (timed a left d) e g = tt
run-Good s (timed_woken a left d) e g = resume-Good s a left d e g
run-Good s (timed_out a) e g = expire-Good s a e g
run-Good s done e g = tt

time_out-Good : (s : System) (pc : ThreadPc) → s.pc ≡ pc → Good s → After Good (time_out s pc)
unfolding time_out
time_out-Good s (timed a left d) e g =
    let h : Attends s.list s.current s.enabled s.clock (timed a left d) =
      subst (Attends s.list s.current s.enabled s.clock) e g.attends in
    After-lock Good (ltb s.clock d) _
      (λ f. record { shared = g.shared; attends = (h.1, ground (arith, h.3)) })
time_out-Good s (timed_woken a left d) e g =
    let h : Attends s.list s.current s.enabled s.clock (timed_woken a left d) =
      subst (Attends s.list s.current s.enabled s.clock) e g.attends in
    After-lock Good (ltb s.clock d) _
      (λ f. record { shared = g.shared; attends = (omega (arith, h.0, h.1), ground (arith, h.3)) })
time_out-Good s _ e g = tt

enter-Good :
    (s : System) (pc : MainPc) (name seconds : ℕ) → Good s → After Good (enter s pc name seconds)
unfolding enter
enter-Good s reading name seconds g =
    let a : Alarm = record { name = name; seconds = seconds; time = s.clock + seconds } in
    let i : Good (alarm_insert s a) = insert-Good s a (omega (arith, g.shared.ticking)) g in
    After-lock Good (holds s.pc) _ (λ f. record { shared = i.shared; attends = i.attends })
enter-Good s _ name seconds g = tt

end_input-Good : (s : System) (pc : MainPc) (b : Bool) → Good s → After Good (end_input s pc b)
unfolding end_input
end_input-Good s reading true g = record { shared = g.shared; attends = g.attends }
end_input-Good s reading false g = record { shared = g.shared; attends = g.attends }
end_input-Good s _ b g = tt

join-Good : (s : System) (pc : ThreadPc) → Good s → After Good (join s pc)
join-Good s done g = record { shared = g.shared; attends = g.attends }
join-Good s _ g = tt

close-Good : (s : System) (pc : MainPc) → Good s → After Good (close s pc)
unfolding close
close-Good s reading g = tt
close-Good s (sleeping t) g =
    After-lock Good (ltb s.clock t) _ (λ f. record { shared = g.shared; attends = g.attends })
close-Good s closing g = After-lock Good (holds s.pc) _ (λ f. record {
  shared = g.shared;
  attends = Attends-rouse s.list s.current s.enabled s.clock s.pc g.attends false;
})
close-Good s joining g = join-Good s s.pc g
close-Good s exited g = tt

step-Good : (a : Action) (s : System) → Good s → After Good (step a s)
unfolding step
step-Good ticks s g = record {
  shared = record {
    ordered = g.shared.ordered;
    longest_last = g.shared.longest_last;
    ticking = omega arith;
    punctual = g.shared.punctual;
  };
  attends = Attends-tick s.list s.current s.enabled s.clock s.pc g.attends;
}
step-Good runs s g = run-Good s s.pc refl g
step-Good times_out s g = time_out-Good s s.pc refl g
step-Good stirs s g = record {
  shared = g.shared;
  attends = Attends-rouse s.list s.current s.enabled s.clock s.pc g.attends s.enabled;
}
step-Good closes s g = close-Good s s.main_pc g
step-Good (enters name seconds) s g = enter-Good s s.main_pc name seconds g
step-Good (ends_input b) s g = end_input-Good s s.main_pc b g

pub Reach-Good : {now : ℕ} {s : System} → 0 < now → Reach now s → Good s
Reach-Good z start = record {
  shared = record { ordered = tt; longest_last = refl; ticking = z; punctual = tt };
  attends = tt;
}
Reach-Good z (next a r e) = After-some Good e (step-Good a _ (Reach-Good z r))

-- In every state that the program reaches, if the clock starts after ZERO, the times of
-- `alarm_list` never descend, and its last alarm, when it has one, is `longest`, as the assertion in
-- alarm_insert says.
pub alarms_in_order :
    {now : ℕ} {s : System}
    → 0 < now
    → Reach now s
    → Ascends 1 s.list × (last_or s.longest s.list ≡ s.longest)
alarms_in_order z r = ((Reach-Good z r).shared.ordered, (Reach-Good z r).shared.longest_last)

-- What a wait, while no notification is under way, says of the list.
abbrev pub Attentive : System → ThreadPc → Type 0
Attentive s idle = (s.list ≡ []) × (s.enabled ≡ true)
Attentive s (timed a left d) = Ascends a.time s.list × (s.enabled ≡ true)
Attentive s _ = Unit

Attends-Attentive :
    (s : System) (pc : ThreadPc) → Attends s.list s.current s.enabled s.clock pc → Attentive s pc
Attends-Attentive s idle h = (h.0, h.2)
Attends-Attentive s (timed a left d) h = (h.2, h.5)
Attends-Attentive s _ h = tt

-- In every state that the program reaches, if the clock starts after ZERO: while the alarm thread is
-- in `wait` and not notified, the list is empty and main has not ended; while it is in `wait_for` for
-- an alarm and not notified, no alarm of the list is earlier and main has not ended.
pub waits_for_earliest : {now : ℕ} {s : System} → 0 < now → Reach now s → Attentive s s.pc
waits_for_earliest {s = s} z r = Attends-Attentive s s.pc (Reach-Good z r).attends

-- In every state that the program reaches, if the clock starts after ZERO: every alarm that was
-- handled was handled at its time or later.
pub handled_in_time : {now : ℕ} {s : System} → 0 < now → Reach now s → Punctual s.handled
handled_in_time z r = (Reach-Good z r).shared.punctual
