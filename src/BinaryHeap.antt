-- ===== src/BinaryHeap.antt =====
-- src/binary_heap.c and src/kvp.c: a binary min-heap in an array that grows by `realloc`.
pub mod Order
pub mod Up
pub mod Down
pub mod Queue
mod Tests
use fsfuse.Base.{
  ℕ, zero, suc, ◌+◌, ◌-◌, ◌*◌, ◌/◌, ◌%◌, ◌^◌, ◌||◌, Option, none, some, ltb, ◌==◌, if◌then◌else◌,
  max, Run, ok, fault, out_of_fuel, ◌>>=◌, or_fault, check,
}
use fsfuse.Base.Int.{ℤ, leb_ℤ, ltb_ℤ}

-- struct _kvp_t; the value is what the `void *` stands for.
pub record Kvp (V : Type 0) : Type 0 where
  pub key : ℤ
  pub value : V

-- `array` is the memory behind the pointer. A cell that was never written holds none.
pub record BinaryHeap (V : Type 0) : Type 0 where
  pub allocated : ℕ
  pub used : ℕ
  pub array : ℕ → Option (Kvp V)

module _ {V : Type 0} where
  unfoldable pub new : BinaryHeap V
  new = record { allocated = 0; used = 0; array = λ _. none }

  -- heap->array[ i ], which is undefined past the allocation and at a cell never written.
  pub load : BinaryHeap V → ℕ → Run (Kvp V)
  load h i = if ltb i h.allocated then or_fault (h.array i) else fault

  abbrev pub update : (ℕ → Option (Kvp V)) → ℕ → Kvp V → ℕ → Option (Kvp V)
  update f i v j = if i == j then some v else f j

  -- heap->array[ i ] = v
  pub store : BinaryHeap V → ℕ → Kvp V → Run (BinaryHeap V)
  store h i v = if ltb i h.allocated then ok (record h { array = update h.array i v }) else fault

  -- SWAP( heap->array[ i ], heap->array[ j ] )
  pub swap : BinaryHeap V → ℕ → ℕ → Run (BinaryHeap V)
  unfolding load store
  swap h i j = do y ← load h j; x ← load h i; h' ← store h j x; store h' i y

  -- `realloc` keeps what was allocated; what it adds was never written.
  pub ensure_space : BinaryHeap V → ℕ → BinaryHeap V
  ensure_space h space =
      if ltb h.allocated space
      then record h {
        allocated = max (h.allocated * 2) space;
        array = λ i. if ltb i h.allocated then h.array i else none;
      }
      else h

  pub binary_heap_delete : BinaryHeap V → Run (Unit {0})
  binary_heap_delete h = check (h.used == 0)

-- The argument is an `int`: a position is cut to its low 32 bits. From a negative one the result
-- is an index outside any array.
pub parent : ℕ → Run ℕ
parent node = let n = node % 2 ^ 32 in if ltb n (2 ^ 31) then ok ((n - 1) / 2) else fault

-- 2 * node + k in `int`, where a signed overflow is undefined.
pub child : ℕ → ℕ → Run ℕ
child k node = let n = node % 2 ^ 32 in if ltb (2 * n + k) (2 ^ 31) then ok (2 * n + k) else fault

pub left_child : ℕ → Run ℕ
unfolding child
left_child = child 1

pub right_child : ℕ → Run ℕ
unfolding child
right_child = child 2

module _ {V : Type 0} where
  -- Every round halves the position, so a position below the fuel suffices.
  pub move_up : ℕ → BinaryHeap V → ℕ → Run (BinaryHeap V)
  move_up zero h target = out_of_fuel
  move_up (suc k) h target =
      let step : Run (BinaryHeap V) = do
        node ← load h target
        parent_pos ← parent target
        parent_node ← load h parent_pos
        let rise = swap h target parent_pos >>= λ h'. move_up k h' parent_pos
        if leb_ℤ parent_node.key node.key then ok h else rise
      in if ltb 0 target then step else ok h

  pub binary_heap_add : BinaryHeap V → ℤ → V → Run (BinaryHeap V)
  binary_heap_add h key value = do
    let h1 = ensure_space h (h.used + 1)
    h2 ← store h1 h1.used (record { key = key; value = value })
    h3 ← move_up (h2.used + 1) h2 h2.used
    ok (record h3 { used = h3.used + 1 })

  -- `||` reads the right child's key only if the left one is in range; both nodes are loaded
  -- before the test. `used - 1` is unsigned, and the loop runs only where `used` is positive.
  pub pick_child : BinaryHeap V → ℕ → Run (ℕ × Kvp V)
  pick_child h target = do
    left ← left_child target
    left_node ← load h left
    right ← right_child target
    right_node ← load h right
    if ltb (h.used - 1) left || ltb_ℤ right_node.key left_node.key
        then ok (right, right_node)
        else ok (left, left_node)

  pub move_down : ℕ → BinaryHeap V → ℕ → Run (BinaryHeap V)
  move_down zero h target = out_of_fuel
  move_down (suc k) h target =
      let step : Run (BinaryHeap V) = do
        node ← load h target
        (pos, child_node) ← pick_child h target
        let sink = swap h target pos >>= λ h'. move_down k h' pos
        if leb_ℤ node.key child_node.key then ok h else sink
      in if ltb target (h.used / 2) then step else ok h

  -- The key and value come back as `some`, and `rc = 0` as none.
  pub binary_heap_trypop : BinaryHeap V → Run (Option (Kvp V) × BinaryHeap V)
  binary_heap_trypop h =
      if ltb 0 h.used
      then (do
        top ← load h 0
        let h1 = record h { used = h.used - 1 }
        h2 ←
            if ltb 0 h1.used
            then (do last ← load h1 h1.used; h2 ← store h1 0 last; move_down (h2.used + 1) h2 0)
            else ok h1
        ok (some top, h2))
      else ok (none, h)
