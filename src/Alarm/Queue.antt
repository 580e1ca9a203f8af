-- ===== src/Alarm/Queue.antt =====
-- alarm_cond.cpp: the list of alarms and `alarm_insert`. Times are ticks of the steady clock, and the
-- clock's zero is ZERO.
use queued_thread_pool.Prelude.{
  ℕ, ◌+◌, ◌≤◌, ◌≡◌, refl, Bool, true, false, Option, some, List, [], ◌∷◌, ◌++◌, ltb, arith, inl,
  inr, Bool-cases, ◌∙◌, same, if◌then◌else◌,
}

-- `Alarm::alarm_t`; `name` stands for the node's address, and so for its message.
pub record Alarm : Type 0 where
  pub name : ℕ
  pub seconds : ℕ
  pub time : ℕ

-- The loop of `alarm_insert` and the insertion after it
unfoldable pub insert : Alarm → List Alarm → List Alarm
insert a [] = a ∷ []
insert a (b ∷ l) = if ltb a.time b.time then a ∷ b ∷ l else b ∷ insert a l

-- Whether that loop reaches the end of the list
unfoldable pub reaches_end : Alarm → List Alarm → Bool
reaches_end a [] = true
reaches_end a (b ∷ l) = if ltb a.time b.time then false else reaches_end a l

-- The static `longest`, after `alarm_insert`
unfoldable pub new_longest : Alarm → List Alarm → Option Alarm → Option Alarm
unfolding reaches_end
new_longest a l longest = if reaches_end a l then some a else longest

-- The times of a list do not descend, from `n` on.
abbrev pub Ascends : ℕ → List Alarm → Type 0
Ascends n [] = Unit
Ascends n (b ∷ l) = (n ≤ b.time) × Ascends b.time l

pub Ascends-le : (n m : ℕ) (l : List Alarm) → n ≤ m → Ascends m l → Ascends n l
Ascends-le n m [] h s = tt
Ascends-le n m (b ∷ l) h s = (omega arith, s.1)

pub insert-Ascends :
    (n : ℕ) (a : Alarm) (l : List Alarm) → n ≤ a.time → Ascends n l → Ascends n (insert a l)
unfolding insert
insert-Ascends n a [] h s = (h, tt)
insert-Ascends n a (b ∷ l) h s = elim (Bool-cases (ltb a.time b.time)) [
  | inl e ↦ rw (e) (h, (ground arith, s.1))
  | inr e ↦ rw (e) (s.0, insert-Ascends b.time a l (ground arith) s.1)
]

-- The last alarm of a list, or what was given.
abbrev pub last_or : Option Alarm → List Alarm → Option Alarm
last_or o [] = o
last_or o (b ∷ l) = last_or (some b) l

insert-end :
    (o : Option Alarm) (a : Alarm) (l : List Alarm)
    → reaches_end a l ≡ true
    → last_or o (insert a l) ≡ some a
unfolding insert reaches_end
insert-end o a [] h = refl
insert-end o a (b ∷ l) h = ground (arith, insert-end (some b) a l)

insert-before :
    (o o' : Option Alarm) (a : Alarm) (l : List Alarm)
    → reaches_end a l ≡ false
    → last_or o (insert a l) ≡ last_or o' l
unfolding insert reaches_end
insert-before o o' a [] h = cc
insert-before o o' a (b ∷ l) h = ground (arith, insert-before (some b) (some b) a l)

-- `longest` is the last alarm of the list, if there is one, and stays so.
pub longest-insert :
    (a : Alarm) (l : List Alarm) (o : Option Alarm)
    → last_or o l ≡ o
    → last_or (new_longest a l o) (insert a l) ≡ new_longest a l o
unfolding new_longest
longest-insert a l o h = elim (Bool-cases (reaches_end a l)) [
  | inl e ↦ rw (e) (insert-end (some a) a l e)
  | inr e ↦ rw (e) (insert-before o o a l e ∙ h)
]

pub last_or-rest :
    (o : Option Alarm) (a : Alarm) (rest : List Alarm)
    → last_or o (a ∷ rest) ≡ o
    → last_or o rest ≡ o
last_or-rest o a [] h = refl
last_or-rest o a (b ∷ rest) h = h

pub insert≢[] : (a : Alarm) (l : List Alarm) → insert a l ≡ [] → ⊥
unfolding insert
insert≢[] a [] h = cc
insert≢[] a (b ∷ l) h = elim (Bool-cases (ltb a.time b.time)) [
  | inl e ↦ ground (arith, h)
  | inr e ↦ ground (arith, h)
]

-- How many alarms of a list have a name.
abbrev pub tally : ℕ → List Alarm → ℕ
tally x [] = 0
tally x (a ∷ l) = same x a.name + tally x l

pub tally-insert :
    (x : ℕ) (a : Alarm) (l : List Alarm) → tally x (insert a l) ≡ same x a.name + tally x l
unfolding insert
tally-insert x a [] = omega arith
tally-insert x a (b ∷ l) = elim (Bool-cases (ltb a.time b.time)) [
  | inl e ↦ rw (e) refl
  | inr e ↦ rw (e) (omega (arith, tally-insert x a l))
]

pub tally-append : (x : ℕ) (l m : List Alarm) → tally x (l ++ m) ≡ tally x l + tally x m
tally-append x [] m = omega arith
tally-append x (a ∷ l) m = omega (arith, tally-append x l m)
