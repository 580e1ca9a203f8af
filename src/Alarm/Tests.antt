-- ===== src/Alarm/Tests.antt =====
-- alarm_cond.cpp: runs of the model, and its theorems at concrete states.
use queued_thread_pool.Prelude.{
  ◌≡◌, refl, false, List, [], ◌∷◌, ◌++◌, arith, follow, or_else, followed,
}
use queued_thread_pool.Alarm.Queue.{insert, new_longest, reaches_end, Ascends, last_or}
use queued_thread_pool.Alarm.System.{
  System, Action, ticks, runs, times_out, closes, enters, ends_input, step, init, Reach, start,
  next, timed_woken,
}
use queued_thread_pool.Alarm.Attends.{Punctual}
use queued_thread_pool.Alarm.Waiting.{
  alarms_in_order, handled_in_time, waits_for_earliest, Attentive,
}
use queued_thread_pool.Alarm.Account.{alarm_account, Kept}

-- The thread waits for alarm 1, which is due at 15, when alarm 2 comes, which is due at 11.
abbrev to_overtaken : List Action
to_overtaken = runs ∷ runs ∷ enters 1 5 ∷ runs ∷ enters 2 1 ∷ []

-- It handles alarm 2, and main ends while it waits for alarm 1.
abbrev to_end : List Action
to_end =
    runs
    ∷ runs
    ∷ ticks
    ∷ times_out
    ∷ runs
    ∷ runs
    ∷ enters 3 7
    ∷ ends_input false
    ∷ closes
    ∷ runs
    ∷ closes
    ∷ []

abbrev at_10 : List Action → System
at_10 l = or_else (init 10) (follow step l (init 10))

abbrev overtaken : System
overtaken = at_10 to_overtaken

overtaken_reached : Reach 10 overtaken
unfolding step insert new_longest reaches_end
overtaken_reached = followed step (Reach 10) (λ a s t r e. next a r e) to_overtaken start refl

overtaken-pc : overtaken.pc ≡ timed_woken record { name = 1; seconds = 5; time = 15 } 5 15
unfolding step insert new_longest reaches_end
overtaken-pc = refl

abbrev waiting : System
waiting = at_10 (to_overtaken ++ runs ∷ runs ∷ [])

waiting_reached : Reach 10 waiting
unfolding step insert new_longest reaches_end
waiting_reached =
    followed step (Reach 10) (λ a s t r e. next a r e) (to_overtaken ++ runs ∷ runs ∷ []) start refl

abbrev ended : System
ended = at_10 (to_overtaken ++ to_end)

ended_reached : Reach 10 ended
unfolding step insert new_longest reaches_end
ended_reached =
    followed step (Reach 10) (λ a s t r e. next a r e) (to_overtaken ++ to_end) start refl

ended-lost : ended.lost ≡ record { name = 1; seconds = 5; time = 15 } ∷ []
unfolding step insert new_longest reaches_end
ended-lost = refl

alarms_in_order_example :
    Ascends 1 waiting.list × (last_or waiting.longest waiting.list ≡ waiting.longest)
alarms_in_order_example = alarms_in_order (omega arith) waiting_reached

waits_for_earliest_example : Attentive waiting waiting.pc
waits_for_earliest_example = waits_for_earliest (omega arith) waiting_reached

handled_there : Punctual ended.handled
handled_there = handled_in_time (omega arith) ended_reached

alarm_account_example : Kept 1 ended
alarm_account_example = alarm_account 1 ended_reached
