-- ===== src/BinaryHeap/Tests.antt =====
-- Runs of the heap of src/binary_heap.c, and its theorems at a heap of three entries.
use fsfuse.Base.{ℕ, zero, suc, ◌≡◌, refl, Option, none, some, arith, Run, ok, ◌>>=◌, Returns}
use fsfuse.Base.Int.{ℤ, pos, negsuc, pos_part, neg_part}
use fsfuse.BinaryHeap.{
  Kvp, BinaryHeap, new, ensure_space, binary_heap_add, binary_heap_trypop, move_up, move_down,
  pick_child, swap, parent, left_child, right_child,
}
use fsfuse.BinaryHeap.Order.{Written, IsHeap, key_at}
use fsfuse.BinaryHeap.Queue.{
  IsValid, Added, Popped, entry, binary_heap_add_correct, binary_heap_trypop_correct,
}

abbrev e : ℤ → ℕ → Kvp ℕ
e k v = record { key = k; value = v }

abbrev cells : ℕ → Option (Kvp ℕ)
cells zero = some (e (negsuc 0) 7)
cells (suc zero) = some (e (pos 4) 8)
cells (suc (suc zero)) = some (e (pos 2) 9)
cells (suc (suc (suc i))) = none

abbrev sample : BinaryHeap ℕ
sample = record { allocated = 4; used = 3; array = cells }

abbrev view : Option (Kvp ℕ) × BinaryHeap ℕ → Run (Option (Kvp ℕ) × ℕ × Option (Kvp ℕ))
view (r, h) = ok (r, h.used, h.array 0)

popped : (binary_heap_trypop sample >>= view) ≡ ok (some (e (negsuc 0) 7), 2, some (e (pos 2) 9))
unfolding binary_heap_trypop move_down pick_child swap parent left_child right_child pos_part
    neg_part
popped = refl

written : Written cells 3
written zero p = (e (negsuc 0) 7, refl)
written (suc zero) p = (e (pos 4) 8, refl)
written (suc (suc zero)) p = (e (pos 2) 9, refl)
written (suc (suc (suc i))) p = absurd (omega arith)

heap : IsHeap cells 3
unfolding key_at pos_part neg_part
heap zero p q = absurd (omega arith)
heap (suc zero) p q = omega arith
heap (suc (suc zero)) p q = omega arith
heap (suc (suc (suc i))) p q = absurd (omega arith)

sample-IsValid : IsValid sample
sample-IsValid = record { room = omega arith; written = written; heap = heap }

-- three entries out of order, and the first to come back
abbrev session : Run (Option (Kvp ℕ))
session = do
  h1 ← binary_heap_add new (pos 5) 1
  h2 ← binary_heap_add h1 (pos 3) 2
  h3 ← binary_heap_add h2 (negsuc 0) 3
  (r, h4) ← binary_heap_trypop h3
  (r2, h5) ← binary_heap_trypop h4
  ok r2

session_second : session ≡ ok (some (e (pos 3) 2))
unfolding new ensure_space binary_heap_add move_up binary_heap_trypop move_down pick_child swap
    parent left_child right_child pos_part neg_part
session_second = refl

binary_heap_add_correct_example :
    Returns (Added sample (entry (pos 1) 6)) (binary_heap_add sample (pos 1) 6)
binary_heap_add_correct_example =
    binary_heap_add_correct sample sample-IsValid (pos 1) 6 (omega arith)

binary_heap_trypop_correct_example : Returns (Popped sample) (binary_heap_trypop sample)
binary_heap_trypop_correct_example =
    binary_heap_trypop_correct sample sample-IsValid (omega arith) (omega arith)
