-- ===== src/BinaryHeap/Order.antt =====
-- What the heap's memory holds: written cells, the heap order, and the contents as a multiset.
use fsfuse.Base.{
  ℕ, zero, suc, ◌+◌, ◌-◌, ◌/◌, ◌≤◌, ◌<◌, ◌≡◌, refl, Option, none, some, arith, ◌==◌, if◌then◌else◌,
  ap, ◌∙◌, Bool-cases, inl, inr, ok,
}
use fsfuse.Base.Int.{ℤ, pos, ◌≤ℤ◌}
use fsfuse.BinaryHeap.{Kvp, BinaryHeap, load, store, swap, update}

module _ {V : Type 0} where
  unfoldable pub key_at : (ℕ → Option (Kvp V)) → ℕ → ℤ
  key_at f i = elim (f i) [ none ↦ pos 0 | some e ↦ e.key ]

  abbrev pub weigh : (Kvp V → ℕ) → Option (Kvp V) → ℕ
  weigh w none = 0
  weigh w (some e) = w e

  -- The memory after SWAP.
  unfoldable pub swapped : (ℕ → Option (Kvp V)) → ℕ → ℕ → Kvp V → Kvp V → ℕ → Option (Kvp V)
  swapped f i j x y = update (update f j x) i y

  pub key_at-some : (f : ℕ → Option (Kvp V)) (i : ℕ) (e : Kvp V) → f i ≡ some e → key_at f i ≡ e.key
  unfolding key_at
  key_at-some f i e p = rw (p, key_at)

  pub key_at-update :
      (f : ℕ → Option (Kvp V)) (i c : ℕ) (v : Kvp V)
      → key_at (update f i v) c ≡ (if i == c then v.key else key_at f c)
  unfolding key_at
  key_at-update f i c v = elim (Bool-cases (i == c)) [
    | inl e ↦ rw (e, key_at)
    | inr e ↦ rw (e, key_at)
  ]

  pub key_at-swapped :
      (f : ℕ → Option (Kvp V)) (i j c : ℕ) (x y : Kvp V)
      → key_at (swapped f i j x y) c
        ≡ (if i == c then y.key else if j == c then x.key else key_at f c)
  unfolding swapped
  key_at-swapped f i j c x y =
      key_at-update (update f j x) i c y
      ∙ ap (λ k. if i == c then y.key else k) (key_at-update f j c x)

  -- The sum of a weight over the first cells. Two memories hold the same entries as often if
  -- these sums agree for every weight.
  unfoldable pub tally : (Kvp V → ℕ) → (ℕ → Option (Kvp V)) → ℕ → ℕ
  tally w f zero = 0
  tally w f (suc n) = tally w f n + weigh w (f n)

  abbrev pub Written : (ℕ → Option (Kvp V)) → ℕ → Type 0
  Written f n = (i : ℕ) → i < n → (e : Kvp V) × (f i ≡ some e)

  -- No entry has a key below its parent's.
  abbrev pub IsHeap : (ℕ → Option (Kvp V)) → ℕ → Type 0
  IsHeap f n = (c : ℕ) → 0 < c → c < n → key_at f ((c - 1) / 2) ≤ℤ key_at f c

  pub tally-update_above :
      (w : Kvp V → ℕ) (f : ℕ → Option (Kvp V)) (n i : ℕ) (v : Kvp V)
      → n ≤ i
      → tally w (update f i v) n ≡ tally w f n
  unfolding tally
  tally-update_above w f zero i v h = refl
  tally-update_above w f (suc n) i v h = ground (arith, tally-update_above w f n i v)

  pub tally-update :
      (w : Kvp V → ℕ) (f : ℕ → Option (Kvp V)) (n i : ℕ) (v e : Kvp V)
      → i < n
      → f i ≡ some e
      → tally w (update f i v) n + w e ≡ tally w f n + w v
  unfolding tally
  tally-update w f zero i v e h p = absurd (omega arith)
  tally-update w f (suc n) i v e h p = elim (Bool-cases (i == n)) [
    | inl same ↦ ground (arith, tally-update_above w f n i v)
    | inr other ↦ ground (arith, tally-update w f n i v e)
  ]

  pub tally_cong :
      (w : Kvp V → ℕ) (f g : ℕ → Option (Kvp V)) (n : ℕ)
      → ((i : ℕ) → i < n → f i ≡ g i)
      → tally w f n ≡ tally w g n
  unfolding tally
  tally_cong w f g zero same = refl
  tally_cong w f g (suc n) same =
      ground (arith, same n, tally_cong w f g n (λ i h. same i (omega arith)))

  pub tally-add_one :
      (w : Kvp V → ℕ) (f : ℕ → Option (Kvp V)) (n : ℕ)
      → tally w f (n + 1) ≡ tally w f n + weigh w (f n)
  unfolding tally
  tally-add_one w f n = ground arith

  pub load-ok :
      (h : BinaryHeap V) (i : ℕ) (e : Kvp V)
      → i < h.allocated
      → h.array i ≡ some e
      → load h i ≡ ok e
  unfolding load
  load-ok h i e below p = ground arith

  Written-update :
      (f : ℕ → Option (Kvp V)) (n i : ℕ) (v : Kvp V) → Written f n → Written (update f i v) n
  Written-update f n i v written j h = elim (Bool-cases (i == j)) [
    | inl same ↦ (v, ground arith)
    | inr other ↦ let (e, p) = written j h in (e, ground arith)
  ]

  pub Written-swapped :
      (f : ℕ → Option (Kvp V)) (n i j : ℕ) (x y : Kvp V)
      → Written f n
      → Written (swapped f i j x y) n
  unfolding swapped
  Written-swapped f n i j x y written =
      Written-update (update f j x) n i y (Written-update f n j x written)

  module _ (h : BinaryHeap V) (i j : ℕ) (x y : Kvp V) (below : i < h.allocated)
      (below' : j < h.allocated) (atx : h.array i ≡ some x) (aty : h.array j ≡ some y) where
    pub swap-ok : swap h i j ≡ ok (record h { array = swapped h.array i j x y })
    unfolding swap store swapped
    swap-ok = ground (arith, load-ok h i x, load-ok h j y)

    pub tally-swap :
        (w : Kvp V → ℕ) (n : ℕ)
        → i < n
        → j < n
        → tally w (swapped h.array i j x y) n ≡ tally w h.array n
    unfolding swapped
    tally-swap w n p q = elim (Bool-cases (j == i)) [
      | inl same ↦
          ground
            (arith, tally-update w h.array n j x y, tally-update w (update h.array j x) n i y x)
      | inr other ↦
          ground
            (arith, tally-update w h.array n j x y, tally-update w (update h.array j x) n i y x)
    ]
