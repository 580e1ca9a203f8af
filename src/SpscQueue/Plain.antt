-- ===== src/SpscQueue/Plain.antt =====
-- A list of bounded length keeps the documented laws of boost::lockfree::spsc_queue.
use queued_thread_pool.Prelude.{
  some-inj, ℕ, ◌≡◌, refl, sym, ap, Bool, true, false, Option, none, some, List, [], ◌∷◌, ◌++◌,
  length, ltb, if◌then◌else◌, none≢some,
}
use queued_thread_pool.SpscQueue.{Queue}

-- A queue of this capacity
abbrev pub plain_push : ℕ → ℕ → List ℕ → Option (List ℕ)
plain_push capacity v l = if ltb (length l) capacity then some (l ++ v ∷ []) else none

abbrev pub plain_pop : List ℕ → Option (ℕ × List ℕ)
plain_pop [] = none
plain_pop (v ∷ l) = some (v, l)

granted : (b : Bool) (l m : List ℕ) → (if b then some l else none) ≡ some m → m ≡ l
granted true l m e = sym (some-inj e)
granted false l m e = absurd (none≢some e)

pub plain-contents-push :
    (capacity v : ℕ) (l m : List ℕ) → plain_push capacity v l ≡ some m → m ≡ l ++ v ∷ []
plain-contents-push capacity v l m e = granted (ltb (length l) capacity) (l ++ v ∷ []) m e

pub plain-contents-pop : (v : ℕ) (l m : List ℕ) → plain_pop l ≡ some (v, m) → l ≡ v ∷ m
plain-contents-pop v [] m e = absurd (none≢some e)
plain-contents-pop v (w ∷ l) m e = let p : (w, l) ≡ (v, m) = some-inj e in ap (λ x. x.0 ∷ x.1) p

pub plain-pop-none : (l : List ℕ) → plain_pop l ≡ none → l ≡ []
plain-pop-none [] e = refl
plain-pop-none (v ∷ l) e = absurd (none≢some (sym e))

abbrev pub plain_spsc : ℕ → Queue
plain_spsc capacity = record {
  Spsc = List ℕ;
  contents = λ l. l;
  no_values = [];
  push = plain_push capacity;
  pop = plain_pop;
  contents-no_values = refl;
  contents-push = plain-contents-push capacity;
  contents-pop = plain-contents-pop;
  pop-none = plain-pop-none;
}
