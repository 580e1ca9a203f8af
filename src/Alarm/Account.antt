-- ===== src/Alarm/Account.antt =====
-- alarm_cond.cpp: where the alarms are that main has entered.
use queued_thread_pool.Prelude.{
  ℕ, ◌+◌, ◌≡◌, refl, Bool, true, false, List, [], ◌∷◌, ◌++◌, ◌||◌, ◌==◌, not, ltb, arith, inl, inr,
  Bool-cases, if_both, sym, ap, subst, same, After, After-lock, After-some,
}
use queued_thread_pool.Alarm.Queue.{Alarm, insert, tally, tally-insert, tally-append}
use queued_thread_pool.Alarm.System.{
  ThreadPc, starting, top, idle, idle_woken, timed, timed_woken, timed_out, done, MainPc, reading,
  sleeping, closing, joining, exited, System, rouse, alarm_insert, handle, take, look, resume, run,
  time_out, holds, enter, end_input, join, close, Action, ticks, runs, times_out, stirs, closes,
  enters, ends_input, step, Reach, start, next,
}

-- How often the alarm thread holds an alarm of this name.
abbrev pub held : ℕ → ThreadPc → ℕ
held x (timed a left d) = same x a.name
held x (timed_woken a left d) = same x a.name
held x (timed_out a) = same x a.name
held x _ = 0

-- How often such an alarm was handled.
abbrev pub tally_handled : ℕ → List (Alarm × ℕ) → ℕ
tally_handled x [] = 0
tally_handled x ((a, t) ∷ l) = same x a.name + tally_handled x l

tally_handled-append :
    (x : ℕ) (l : List (Alarm × ℕ)) (a : Alarm) (t : ℕ)
    → tally_handled x (l ++ (a, t) ∷ []) ≡ tally_handled x l + same x a.name
tally_handled-append x [] a t = omega arith
tally_handled-append x ((b, u) ∷ l) a t = omega (arith, tally_handled-append x l a t)

tally-last :
    (x : ℕ) (l : List Alarm) (a : Alarm) → tally x (l ++ a ∷ []) ≡ tally x l + same x a.name
tally-last x l a = omega (arith, tally-append x l (a ∷ []))

held-rouse : (x : ℕ) (pc : ThreadPc) → held x (rouse pc) ≡ held x pc
held-rouse x (timed a left d) = refl
held-rouse x (timed_woken a left d) = refl
held-rouse x (timed_out a) = refl
held-rouse x starting = refl
held-rouse x top = refl
held-rouse x idle = refl
held-rouse x idle_woken = refl
held-rouse x done = refl

-- The alarms of a name that were entered are the handled ones, those in the list, the one held, and
-- the lost ones; `n` is how many the thread holds.
abbrev pub Balanced : ℕ → ℕ → System → Type 0
Balanced x n s = tally x s.entered ≡ tally_handled x s.handled + tally x s.list + n + tally x s.lost

abbrev pub Kept : ℕ → System → Type 0
Kept x s = Balanced x (held x s.pc) s

module _ (x : ℕ) where
  insert-Balanced :
      (s : System) (a : Alarm) (n m : ℕ)
      → n ≡ m + same x a.name
      → Balanced x n s
      → Balanced x m (alarm_insert s a)
  unfolding alarm_insert
  insert-Balanced s a n m e b = omega (arith, b, tally-insert x a s.list)

  handle-Balanced :
      (s : System) (a : Alarm) → Balanced x (same x a.name) s → Balanced x 0 (handle s a)
  handle-Balanced s a b = omega (arith, b, tally_handled-append x s.handled a s.clock)

  take-Kept :
      (s : System) (a : Alarm) (rest : List Alarm)
      → a ∷ rest ≡ s.list
      → Balanced x 0 s
      → Kept x (take s a rest)
  take-Kept s a rest e b =
      let t : tally x s.list ≡ same x a.name + tally x rest = ap (tally x) (sym e) in
      if_both (Kept x) (ltb s.clock a.time) _ _ (λ h. omega (arith, b, t))
        (λ h. handle-Balanced (record s { list = rest }) a (omega (arith, b, t)))

  look-Kept :
      (s : System) (list : List Alarm) → list ≡ s.list → Balanced x 0 s → Kept x (look s list)
  look-Kept s [] e b = elim (Bool-cases s.enabled) [ inl h ↦ rw (h) b | inr h ↦ rw (h) b ]
  look-Kept s (a ∷ rest) e b = if_both (Kept x) s.enabled _ _ (λ h. take-Kept s a rest e b) (λ h. b)

  at : (s : System) (pc : ThreadPc) → s.pc ≡ pc → Kept x s → Balanced x (held x pc) s
  at s pc e k = subst (λ c. Balanced x (held x c) s) e k

  lose-Balanced :
      (s : System) (a : Alarm)
      → Balanced x (same x a.name) s
      → Kept x (record s { pc = done; lost = s.lost ++ a ∷ [] })
  lose-Balanced s a b = omega (arith, b, tally-last x s.lost a)

  resume-Kept :
      (s : System) (a : Alarm) (left : ℕ) → Balanced x (same x a.name) s → Kept x (resume s a left)
  resume-Kept s a left b =
      if_both (Kept x) (not s.enabled) _ _ (λ f. lose-Balanced s a b)
        (λ f.
          if_both (Kept x) (a.time == s.current) _ _ (λ k. b)
            (λ k. insert-Balanced s a (same x a.name) 0 (omega arith) b))

  run-Kept : (s : System) (pc : ThreadPc) → s.pc ≡ pc → Kept x s → After (Kept x) (run s pc)
  unfolding run
  run-Kept s starting e k = at s starting e k
  run-Kept s top e k = look-Kept (record s { current = 0 }) s.list refl (at s top e k)
  run-Kept s idle e k = tt
  run-Kept s idle_woken e k = look-Kept s s.list refl (at s idle_woken e k)
  run-Kept s (timed a left d) e k = tt
  run-Kept s (timed_woken a left d) e k = resume-Kept s a left (at s (timed_woken a left d) e k)
  run-Kept s (timed_out a) e k =
      if_both (Kept x) s.enabled _ _ (λ f. handle-Balanced s a (at s (timed_out a) e k))
        (λ f. lose-Balanced s a (at s (timed_out a) e k))
  run-Kept s done e k = tt

  time_out-Kept :
      (s : System) (pc : ThreadPc) → s.pc ≡ pc → Kept x s → After (Kept x) (time_out s pc)
  unfolding time_out
  time_out-Kept s (timed a left d) e k =
      After-lock (Kept x) (ltb s.clock d) _ (λ f. at s (timed a left d) e k)
  time_out-Kept s (timed_woken a left d) e k =
      After-lock (Kept x) (ltb s.clock d) _ (λ f. at s (timed_woken a left d) e k)
  time_out-Kept s _ e k = tt

  rouse-Kept : (s : System) → Kept x s → Balanced x (held x (rouse s.pc)) s
  rouse-Kept s k = omega (arith, k, held-rouse x s.pc)

  enter-Kept :
      (s : System) (pc : MainPc) (name seconds : ℕ)
      → Kept x s
      → After (Kept x) (enter s pc name seconds)
  unfolding enter alarm_insert
  enter-Kept s reading name seconds k =
      let a : Alarm = record { name = name; seconds = seconds; time = s.clock + seconds } in
      let i : Balanced x (held x s.pc)
          (record s { list = insert a s.list; entered = s.entered ++ a ∷ [] }) =
        omega (arith, k, tally-insert x a s.list, tally-last x s.entered a) in
      After-lock (Kept x) (holds s.pc) _ (λ f.
        elim (Bool-cases (s.current == 0 || ltb a.time s.current)) [
          | inl e ↦ rw (e, held-rouse x s.pc) i
          | inr e ↦ rw (e) i
        ])
  enter-Kept s _ name seconds k = tt

  end_input-Kept :
      (s : System) (pc : MainPc) (b : Bool) → Kept x s → After (Kept x) (end_input s pc b)
  unfolding end_input
  end_input-Kept s reading true k = k
  end_input-Kept s reading false k = k
  end_input-Kept s _ b k = tt

  join-Kept : (s : System) (pc : ThreadPc) → Kept x s → After (Kept x) (join s pc)
  join-Kept s done k = k
  join-Kept s _ k = tt

  close-Kept : (s : System) (pc : MainPc) → Kept x s → After (Kept x) (close s pc)
  unfolding close
  close-Kept s reading k = tt
  close-Kept s (sleeping t) k = After-lock (Kept x) (ltb s.clock t) _ (λ f. k)
  close-Kept s closing k = After-lock (Kept x) (holds s.pc) _ (λ f. rouse-Kept s k)
  close-Kept s joining k = join-Kept s s.pc k
  close-Kept s exited k = tt

  step-Kept : (a : Action) (s : System) → Kept x s → After (Kept x) (step a s)
  unfolding step
  step-Kept ticks s k = k
  step-Kept runs s k = run-Kept s s.pc refl k
  step-Kept times_out s k = time_out-Kept s s.pc refl k
  step-Kept stirs s k = rouse-Kept s k
  step-Kept closes s k = close-Kept s s.main_pc k
  step-Kept (enters name seconds) s k = enter-Kept s s.main_pc name seconds k
  step-Kept (ends_input b) s k = end_input-Kept s s.main_pc b k

-- In every state that the program reaches: of the alarms of any name, as many were entered as were
-- handled, stand in `alarm_list`, are held by the alarm thread, and were dropped by it when main
-- ended while it waited for them, all together.
pub alarm_account : {now : ℕ} {s : System} (x : ℕ) → Reach now s → Kept x s
alarm_account x start = refl
alarm_account x (next a r e) = After-some (Kept x) e (step-Kept x a _ (alarm_account x r))
