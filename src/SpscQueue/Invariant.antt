-- ===== src/SpscQueue/Invariant.antt =====
-- lockfree_spsc_queue.cpp: what holds in every state that the threads reach.
use queued_thread_pool.Prelude.{
  false≢true, next_suc, ℕ, zero, suc, ◌+◌, ◌≤◌, ◌<◌, ◌≡◌, refl, sym, ◌∙◌, Bool, true, false, List,
  [], ◌∷◌, ◌++◌, length, length-append, arith,
}
use queued_thread_pool.SpscQueue.{
  Queue, ProducerPc, counting, pushing, produced_all, ConsumerPc, draining, consumed_all, MainPc,
  joining_producer, setting_done, joining_consumer, asserting, System,
}

-- The numbers from 1 to `n`
unfoldable pub up_to : ℕ → List ℕ
up_to zero = []
up_to (suc n) = up_to n ++ suc n ∷ []

pub up_to_next : (n : ℕ) → up_to (n + 1) ≡ up_to n ++ (n + 1) ∷ []
unfolding up_to
up_to_next n = rw (next_suc n) refl

pub length-up_to : (n : ℕ) → length (up_to n) ≡ n
unfolding up_to
length-up_to zero = refl
length-up_to (suc n) = omega (arith, length-append (up_to n) (suc n ∷ []), length-up_to n)

-- How many values have been pushed.
abbrev pub sent : ℕ → ProducerPc → ℕ
sent n (counting i) = i
sent n (pushing i) = i
sent n produced_all = n

abbrev pub is_all : ProducerPc → Bool
is_all produced_all = true
is_all _ = false

-- What `producer_count` is, and that the loop stays within its bound.
abbrev pub Counts : ℕ → ℕ → ProducerPc → Type 0
Counts n k (counting i) = (k ≡ i) × (i ≤ n)
Counts n k (pushing i) = (k ≡ i + 1) × (i < n)
Counts n k produced_all = k ≡ n

-- What the consumer knows.
abbrev pub Knows : List ℕ → Bool → ConsumerPc → Type 0
Knows l done draining = done ≡ true
Knows l done consumed_all = (done ≡ true) × (l ≡ [])
Knows l done _ = Unit

abbrev pub is_consumed : ConsumerPc → Bool
is_consumed consumed_all = true
is_consumed _ = false

-- What main knows.
abbrev pub Joined : ProducerPc → ConsumerPc → MainPc → Type 0
Joined p c joining_producer = Unit
Joined p c asserting = (is_all p ≡ true) × (is_consumed c ≡ true)
Joined p c _ = is_all p ≡ true

pub Joined-same :
    (p p' : ProducerPc) (c : ConsumerPc) (m : MainPc)
    → is_all p ≡ is_all p'
    → Joined p c m
    → Joined p' c m
Joined-same p p' c joining_producer e j = tt
Joined-same p p' c setting_done e j = sym e ∙ j
Joined-same p p' c joining_consumer e j = sym e ∙ j
Joined-same p p' c asserting e j = (sym e ∙ j.0, j.1)

pub Joined-all :
    (p : ProducerPc) (c : ConsumerPc) (m : MainPc) → Joined p c m → Joined produced_all c m
Joined-all p c joining_producer j = tt
Joined-all p c setting_done j = refl
Joined-all p c joining_consumer j = refl
Joined-all p c asserting j = (refl, j.1)

pub Joined-consumer :
    (p : ProducerPc) (c c' : ConsumerPc) (m : MainPc)
    → is_consumed c ≡ false
    → Joined p c m
    → Joined p c' m
Joined-consumer p c c' joining_producer e j = tt
Joined-consumer p c c' setting_done e j = j
Joined-consumer p c c' joining_consumer e j = j
Joined-consumer p c c' asserting e j = absurd (false≢true (sym e ∙ j.1))

module _ (q : Queue) (n : ℕ) where
  open q use {
    Spsc, contents, no_values, push, pop, contents-no_values, contents-push, contents-pop, pop-none,
  }

  -- With the three program counters apart
  pub record GoodAt (s : System q) (pp : ProducerPc) (cp : ConsumerPc) (mp : MainPc) : Type 0 where
    pub ordered : s.consumed ++ contents s.spsc_queue ≡ up_to (sent n pp)
    pub counted : s.consumer_count ≡ length s.consumed
    pub counts : Counts n s.producer_count pp
    pub told : s.done ≡ true → is_all pp ≡ true
    pub knows : Knows (contents s.spsc_queue) s.done cp
    pub joined : Joined pp cp mp

  abbrev pub Good : System q → Type 0
  Good s = GoodAt s s.producer_pc s.consumer_pc s.main_pc
