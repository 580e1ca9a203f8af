-- ===== src/Posix/Pool/After.antt =====
-- What every step keeps, every schedule keeps; and a schedule that runs leads to reachable states.
use queued_thread_pool.Prelude.{
  ℕ, ◌≡◌, Bool, some, List, [], ◌∷◌, inl, inr, Option-cases, After, After-some, none≢some,
}
use queued_thread_pool.Posix.Pool.State.{System}
use queued_thread_pool.Posix.Pool.System.{Action, step, run, Reach, next}
pub use queued_thread_pool.Prelude.{After, After-if, After-lock, After-guarded, After-some}

pub run-After {ℓ} :
    (P : System → Type ℓ)
    → ((a : Action) (s : System) → P s → After P (step a s))
    → (schedule : List Action) (s : System) → P s
    → After P (run schedule s)
unfolding run
run-After P keep [] s p = p
run-After P keep (a ∷ rest') s p = elim (Option-cases (step a s)) [
  | inl e ↦ rw (e, run) tt
  | inr (t, e) ↦ rw (e, run) (run-After P keep rest' t (After-some P e (keep a s p)))
]

pub run-Reach :
    {n : ℕ} {started : ℕ → Bool} {s t : System} (schedule : List Action)
    → Reach n started s
    → run schedule s ≡ some t
    → Reach n started t
unfolding run
run-Reach {n} {started} [] r e = After-some (Reach n started) e r
run-Reach {s} (a ∷ rest') r e = elim (Option-cases (step a s)) [
  | inl f ↦ absurd (none≢some (rw (f, run) at e))
  | inr (t, f) ↦ run-Reach rest' (next a r f) (rw (f, run) at e)
]
