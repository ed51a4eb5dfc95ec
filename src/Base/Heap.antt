-- ===== src/Base/Heap.antt =====
-- Strings on C's heap: strdup, free, and the text behind a pointer.
use Prim.Native.Nat.{ℕ, suc}
use mathlib.Core.Path.{◌≡◌, refl}
use mathlib.Core.Logic.{◌≢◌}
use mathlib.Core.Option.{Option, none, some}
use native.Mathlib.Omega.{arith}
use fsfuse.Base.Tests.{◌==◌, if◌then◌else◌}
use fsfuse.Base.Bytes.{Str}
use fsfuse.Base.Outcome.{Run, fault, ok, or_fault, Returns, returns}

-- The strings that are allocated. Addresses from `next` on have not been given out.
pub record Heap : Type 0 where
  pub next : ℕ
  pub block : ℕ → Option Str

-- A pointer to a string: a literal of the program, or an address on the heap.
pub data Pointer : Type 0 where
  literal : Str → Pointer
  address : ℕ → Pointer

unfoldable pub updated : ℕ → Option Str → (ℕ → Option Str) → ℕ → Option Str
updated p value block q = if q == p then value else block q

pub updated_here :
    (p : ℕ) (value : Option Str) (block : ℕ → Option Str) → updated p value block p ≡ value
unfolding updated
updated_here p value block = ground arith

pub updated_elsewhere :
    (p q : ℕ) (value : Option Str) (block : ℕ → Option Str)
    → q ≢ p
    → updated p value block q ≡ block q
unfolding updated
updated_elsewhere p q value block ne = ground arith

unfoldable pub strdup : Str → Heap → ℕ × Heap
strdup s h = (h.next, record { next = suc (h.next); block = updated (h.next) (some s) (h.block) })

unfoldable pub text : Pointer → Heap → Run Str
text (literal s) h = ok s
text (address p) h = or_fault (h.block p)

released : ℕ → Heap → Option Str → Run Heap
released p h none = fault
released p h (some s) = ok (record { next = h.next; block = updated p none (h.block) })

-- Only what is allocated may be freed, and once.
unfoldable pub free : Pointer → Heap → Run Heap
unfolding released
free (literal s) h = fault
free (address p) h = released p h (h.block p)

-- What is left of a heap after a call of free.
pub record Freed (p : ℕ) (h h' : Heap) : Type 0 where
  pub next : h'.next ≡ h.next
  pub block : h'.block ≡ updated p none (h.block)

pub free_allocated :
    (p : ℕ) (h : Heap) {s : Str} → h.block p ≡ some s → Returns (Freed p h) (free (address p) h)
unfolding free released
free_allocated p h e = rw e (returns (record { next = refl; block = refl }))

pub free_unallocated : (p : ℕ) (h : Heap) → h.block p ≡ none → free (address p) h ≡ fault
unfolding free released
free_unallocated p h e = rw e refl

pub text_allocated : (p : ℕ) (h : Heap) (s : Str) → h.block p ≡ some s → text (address p) h ≡ ok s
unfolding text
text_allocated p h s e = rw e refl
