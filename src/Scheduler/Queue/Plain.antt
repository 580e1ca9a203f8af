-- ===== src/Scheduler/Queue/Plain.antt =====
-- A list from which the greatest item is taken keeps the documented laws of std::priority_queue.
use queued_thread_pool.Prelude.{
  some-inj, ◌≡◌, refl, subst, true, false, Option, none, some, List, [], ◌∷◌, not, is_some, arith,
  is_empty, if◌then◌else◌, if_both,
}
use mathlib.Core.Bool.{Bool-set}
use mathlib.Core.List.{Mem, Perm, forall_mem-cons, not-mem-nil}
use mathlib.Core.List.Perm
use queued_thread_pool.Scheduler.Queue.{Item, item_comp, PriorityQueue}

abbrev pub prefer : Item → Item → List Item → Item × List Item
prefer a m l = if item_comp a m then (m, a ∷ l) else (a, m ∷ l)

-- A greatest item of `a ∷ l`, and the others
abbrev pub greatest : Item → List Item → Item × List Item
greatest a [] = (a, [])
greatest a (b ∷ l) = prefer a (greatest b l).0 (greatest b l).1

abbrev pub plain_top : List Item → Option Item
plain_top [] = none
plain_top (a ∷ l) = some (greatest a l).0

abbrev pub plain_pop : List Item → List Item
plain_pop [] = []
plain_pop (a ∷ l) = (greatest a l).1

greatest-Perm : (a : Item) (l : List Item) → Perm (a ∷ l) ((greatest a l).0 ∷ (greatest a l).1)
greatest-Perm a [] = Perm.rfl
greatest-Perm a (b ∷ l) =
    let (m, r) = greatest b l in
    let p : Perm (a ∷ b ∷ l) (a ∷ m ∷ r) = Perm.cons a (greatest-Perm b l) in
    if_both (λ (x : Item × List Item). Perm (a ∷ b ∷ l) (x.0 ∷ x.1)) (item_comp a m) (m, a ∷ r)
      (a, m ∷ r) (λ e. Perm.trans p (Perm.swap m a r)) (λ e. p)

-- No item of a list compares greater.
abbrev Tops : Item → List Item → Type 0
Tops m l = (b : Item) → Mem b l → item_comp m b ≡ false

Tops-cons : (m a : Item) (l : List Item) → item_comp m a ≡ false → Tops m l → Tops m (a ∷ l)
Tops-cons m a l h t = (forall_mem-cons (λ x. Bool-set (item_comp m x) false)).1 (h, t)

above : (a m x : Item) → item_comp a m ≡ false → item_comp m x ≡ false → item_comp a x ≡ false
unfolding item_comp
above a m x h k = ground (arith, h, k)

below : (a m : Item) → item_comp a m ≡ true → item_comp m a ≡ false
unfolding item_comp
below a m h = ground (arith, h)

itself : (a : Item) → item_comp a a ≡ false
unfolding item_comp
itself a = ground arith

greatest-Tops : (a : Item) (l : List Item) → Tops (greatest a l).0 (a ∷ l)
greatest-Tops a [] = Tops-cons a a [] (itself a) (λ b m. absurd (not-mem-nil m))
greatest-Tops a (b ∷ l) =
    let (m, r) = greatest b l in
    let t : Tops m (b ∷ l) = greatest-Tops b l in
    if_both (λ (x : Item × List Item). Tops x.0 (a ∷ b ∷ l)) (item_comp a m) (m, a ∷ r) (a, m ∷ r)
      (λ e. Tops-cons m a (b ∷ l) (below a m e) t)
      (λ e. Tops-cons a a (b ∷ l) (itself a) (λ x n. above a m x e (t x n)))

pub plain-empty-top : (h : List Item) → is_empty h ≡ not (is_some (plain_top h))
plain-empty-top [] = refl
plain-empty-top (a ∷ l) = refl

pub plain-contents-empty : (h : List Item) → is_empty h ≡ true → h ≡ []
plain-contents-empty [] e = refl
plain-contents-empty (a ∷ l) e = ground (arith, e)

pub plain-contents-pop :
    (a : Item) (h : List Item) → plain_top h ≡ some a → Perm h (a ∷ plain_pop h)
plain-contents-pop a [] e = ground (arith, e)
plain-contents-pop a (b ∷ l) e =
    subst (λ x. Perm (b ∷ l) (x ∷ (greatest b l).1)) (some-inj e) (greatest-Perm b l)

pub plain-comp-top :
    (a b : Item) (h : List Item) → plain_top h ≡ some a → Mem b h → item_comp a b ≡ false
plain-comp-top a b [] e m = absurd (not-mem-nil m)
plain-comp-top a b (c ∷ l) e m =
    subst (λ x. item_comp x b ≡ false) (some-inj e) (greatest-Tops c l b m)

abbrev pub plain_queue : PriorityQueue
plain_queue = record {
  Heap = List Item;
  contents = λ h. h;
  no_items = [];
  empty = is_empty;
  push = ◌∷◌;
  top = plain_top;
  pop = plain_pop;
  contents-no_items = refl;
  empty-top = plain-empty-top;
  contents-empty = plain-contents-empty;
  contents-push = λ a h. Perm.rfl;
  contents-pop = plain-contents-pop;
  comp-top = plain-comp-top;
}
