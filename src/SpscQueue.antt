-- ===== src/SpscQueue.antt =====
-- lockfree_spsc_queue.cpp: a producer, a consumer and main, interleaved, over a
-- boost::lockfree::spsc_queue. The number of iterations is a parameter.
pub mod Plain
pub mod Invariant
pub mod Steps
pub mod Order
mod Tests
use queued_thread_pool.Prelude.{
  ℕ, ◌+◌, ◌≡◌, Bool, true, false, Option, none, some, List, [], ◌∷◌, ◌++◌, ◌==◌, if◌then◌else◌,
}

-- A spsc_queue, as Boost documents it, for one thread that pushes and one that pops: `push` fails only
-- if it is full, `pop` only if it is empty.
pub record Queue : Type 1 where
  pub Spsc : Type 0
  pub contents : Spsc → List ℕ
  pub no_values : Spsc
  pub push : ℕ → Spsc → Option Spsc
  pub pop : Spsc → Option (ℕ × Spsc)
  pub contents-no_values : contents no_values ≡ []
  pub contents-push :
      (v : ℕ) (q q' : Spsc) → push v q ≡ some q' → contents q' ≡ contents q ++ v ∷ []
  pub contents-pop : (v : ℕ) (q q' : Spsc) → pop q ≡ some (v, q') → contents q ≡ v ∷ contents q'
  pub pop-none : (q : Spsc) → pop q ≡ none → contents q ≡ []

-- Where `producer` stands.
pub data ProducerPc : Type 0 where
  counting : ℕ → ProducerPc  -- at `i != iterations`
  pushing : ℕ → ProducerPc  -- in `while (!spsc_queue.push(value))`
  produced_all : ProducerPc

-- Where `consumer` stands.
pub data ConsumerPc : Type 0 where
  testing : ConsumerPc  -- at `while (!done)`
  popping : ConsumerPc  -- at the `while` in that loop
  draining : ConsumerPc  -- at the last `while`
  consumed_all : ConsumerPc

-- Where `main` stands.
pub data MainPc : Type 0 where
  joining_producer setting_done joining_consumer asserting : MainPc

pub data Action : Type 0 where
  produces consumes goes_on : Action

module _ (p : Queue) where
  open p use {Spsc, no_values, push, pop}

  pub record System : Type 0 where
    pub spsc_queue : Spsc
    pub producer_count : ℕ
    pub consumer_count : ℕ
    pub done : Bool
    pub producer_pc : ProducerPc
    pub consumer_pc : ConsumerPc
    pub main_pc : MainPc
    pub consumed : List ℕ  -- a history: the values that were popped

  -- `push` has answered.
  abbrev pub pushed : ℕ → System → Option Spsc → System
  pushed i s none = record s { producer_pc = pushing i }
  pushed i s (some q) = record s { spsc_queue = q; producer_pc = counting (i + 1) }

  -- One step of `producer`
  unfoldable pub producer : ℕ → System → ProducerPc → Option System
  producer iterations s (counting i) = some (
      if i == iterations
      then record s { producer_pc = produced_all }
      else record s { producer_count = s.producer_count + 1; producer_pc = pushing i })
  producer iterations s (pushing i) = some (pushed i s (push s.producer_count s.spsc_queue))
  producer iterations s produced_all = none

  -- `pop` has answered; where the consumer goes on if it was false.
  abbrev pub popped : ConsumerPc → System → Option (ℕ × Spsc) → System
  popped pc s none = record s { consumer_pc = pc }
  popped pc s (some (v, q)) = record s {
    spsc_queue = q;
    consumer_count = s.consumer_count + 1;
    consumed = s.consumed ++ v ∷ [];
  }

  -- One step of `consumer`
  unfoldable pub consumer : System → ConsumerPc → Option System
  consumer s testing = some (record s { consumer_pc = if s.done then draining else popping })
  consumer s popping = some (popped testing s (pop s.spsc_queue))
  consumer s draining = some (popped consumed_all s (pop s.spsc_queue))
  consumer s consumed_all = none

  abbrev pub join_producer : System → ProducerPc → Option System
  join_producer s produced_all = some (record s { main_pc = setting_done })
  join_producer s _ = none

  abbrev pub join_consumer : System → ConsumerPc → Option System
  join_consumer s consumed_all = some (record s { main_pc = asserting })
  join_consumer s _ = none

  -- One step of `main`, up to its assertion
  unfoldable pub main : System → MainPc → Option System
  main s joining_producer = join_producer s s.producer_pc
  main s setting_done = some (record s { done = true; main_pc = joining_consumer })
  main s joining_consumer = join_consumer s s.consumer_pc
  main s asserting = none

  unfoldable pub step : ℕ → Action → System → Option System
  unfolding producer consumer main
  step iterations produces s = producer iterations s s.producer_pc
  step iterations consumes s = consumer s s.consumer_pc
  step iterations goes_on s = main s s.main_pc

  abbrev pub init : System
  init = record {
    spsc_queue = no_values;
    producer_count = 0;
    consumer_count = 0;
    done = false;
    producer_pc = counting 0;
    consumer_pc = testing;
    main_pc = joining_producer;
    consumed = [];
  }

  pub data Reach (iterations : ℕ) : System → Type 0 where
    start : Reach iterations init
    next :
        {s t : System} (a : Action)
        → Reach iterations s
        → step iterations a s ≡ some t
        → Reach iterations t
