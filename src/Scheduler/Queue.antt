-- ===== src/Scheduler/Queue.antt =====
-- priority_scheduler.cpp: items, `item_comp`, and what the scheduler uses of std::priority_queue.
-- Priorities are only compared, so 0 stands for the least that is used.
pub mod Plain
use queued_thread_pool.Prelude.{
  ℕ, ◌≡◌, Bool, true, false, Option, some, List, [], ◌∷◌, not, is_some, ltb,
}
use mathlib.Core.List.{Mem, Perm}

-- `item_base`; `name` stands for the function.
pub record Item : Type 0 where
  pub name : ℕ
  pub priority : ℕ

unfoldable pub item_comp : Item → Item → Bool
item_comp a b = ltb a.priority b.priority

-- A std::priority_queue of items, as the standard documents it: `top` is defined unless it is empty,
-- no item compares greater, and `pop` removes it.
pub record PriorityQueue : Type 1 where
  pub Heap : Type 0
  pub contents : Heap → List Item
  pub no_items : Heap
  pub empty : Heap → Bool
  pub push : Item → Heap → Heap
  pub top : Heap → Option Item
  pub pop : Heap → Heap
  pub contents-no_items : contents no_items ≡ []
  pub empty-top : (h : Heap) → empty h ≡ not (is_some (top h))
  pub contents-empty : (h : Heap) → empty h ≡ true → contents h ≡ []
  pub contents-push : (a : Item) (h : Heap) → Perm (contents (push a h)) (a ∷ contents h)
  pub contents-pop :
      (a : Item) (h : Heap) → top h ≡ some a → Perm (contents h) (a ∷ contents (pop h))
  pub comp-top :
      (a b : Item) (h : Heap) → top h ≡ some a → Mem b (contents h) → item_comp a b ≡ false
