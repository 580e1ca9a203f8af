-- ===== src/Agentpp/Pool/After.antt =====
-- What every step keeps, every schedule keeps; and a schedule that runs leads to reachable states.
use queued_thread_pool.Prelude.{
  ◌≡◌, Bool, ℕ, some, List, [], ◌∷◌, inl, inr, Option-cases, After, After-some, none≢some,
}
use queued_thread_pool.Agentpp.Pool.State.{Pool}
use queued_thread_pool.Agentpp.Pool.System.{Action, step, run_all, Reach, next}

pub run_all-After {ℓ} :
    (P : Pool → Type ℓ)
    → ((a : Action) (s : Pool) → P s → After P (step a s))
    → (schedule : List Action) (s : Pool) → P s
    → After P (run_all schedule s)
unfolding run_all
run_all-After P keep [] s p = p
run_all-After P keep (a ∷ rest') s p = elim (Option-cases (step a s)) [
  | inl e ↦ rw (e, run_all) tt
  | inr (t, e) ↦ rw (e, run_all) (run_all-After P keep rest' t (After-some P e (keep a s p)))
]

pub run_all-Reach :
    {v : Bool} {n : ℕ} {s t : Pool} (schedule : List Action)
    → Reach v n s
    → run_all schedule s ≡ some t
    → Reach v n t
unfolding run_all
run_all-Reach {v} {n} [] r e = After-some (Reach v n) e r
run_all-Reach {s} (a ∷ rest') r e = elim (Option-cases (step a s)) [
  | inl f ↦ absurd (none≢some (rw (f, run_all) at e))
  | inr (t, f) ↦ run_all-Reach rest' (next a r f) (rw (f, run_all) at e)
]
