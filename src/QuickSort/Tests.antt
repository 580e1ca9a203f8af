-- ===== src/QuickSort/Tests.antt =====
-- parallel_quick_sort.cpp: sorts of numbers, as in main.
use queued_thread_pool.Prelude.{ℕ, zero, suc, ◌≡◌, refl, some, List, [], ◌∷◌}
use queued_thread_pool.QuickSort.{do_sort, parallel_quick_sort}
use queued_thread_pool.QuickSort.Plain.{stable, numbers}
use queued_thread_pool.QuickSort.Sorted.{Sorts, sorts}

sorted-six :
    parallel_quick_sort numbers stable (5 ∷ 2 ∷ 4 ∷ 2 ∷ 0 ∷ 3 ∷ [])
    ≡ some (0 ∷ 2 ∷ 2 ∷ 3 ∷ 4 ∷ 5 ∷ [])
unfolding parallel_quick_sort do_sort
sorted-six = refl

-- As in `main`, the numbers down from 100.
abbrev down : ℕ → List ℕ
down zero = 0 ∷ []
down (suc n) = suc n ∷ down n

sorts_example : Sorts numbers stable (down 100) (parallel_quick_sort numbers stable (down 100))
sorts_example = sorts numbers stable (down 100)
