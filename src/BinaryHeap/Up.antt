-- ===== src/BinaryHeap/Up.antt =====
-- move_up of src/binary_heap.c.
use fsfuse.Base.{
  ℕ, lt→ltb, ◌==◌, if◌then◌else◌, zero, suc, ◌-◌, ◌/◌, ◌^◌, ◌≤◌, ◌<◌, ◌≡◌, refl, ◌∙◌, ◌≢◌, false,
  some, arith, Bool-cases, inl, inr, ok, Returns, returns, Returns-map,
}
use fsfuse.Base.Int.{◌≤ℤ◌, leb_ℤ}
use fsfuse.BinaryHeap.{Kvp, BinaryHeap, parent, move_up}
use fsfuse.BinaryHeap.Order.{
  key_at, tally, Written, IsHeap, load-ok, swapped, swap-ok, tally-swap, Written-swapped,
  key_at-some, key_at-swapped,
}

pub parent-ok : (t : ℕ) → t < 2 ^ 30 → parent t ≡ ok ((t - 1) / 2)
unfolding parent
parent-ok t h = ground arith

module _ {V : Type 0} where
  -- The first `n` cells hold the same entries in heap order, and nothing else changed.
  pub record Sifted (n : ℕ) (h h' : BinaryHeap V) : Type 0 where
    pub allocated : h'.allocated ≡ h.allocated
    pub used : h'.used ≡ h.used
    pub written : Written h'.array n
    pub heap : IsHeap h'.array n
    pub same : (w : Kvp V → ℕ) → tally w h'.array n ≡ tally w h.array n

  -- Every edge is in order but the one above `t`, and the edges past `t` are.
  pub record Rising (h : BinaryHeap V) (n t : ℕ) : Type 0 where
    pub inside : t < n
    pub room : n ≤ h.allocated
    pub small : n < 2 ^ 30
    pub written : Written h.array n
    pub edges : (c : ℕ) → 0 < c → c < n → c ≢ t → (key_at h.array ((c - 1) / 2) ≤ℤ key_at h.array c)
    pub bridged :
        (c : ℕ)
        → 0 < c
        → c < n
        → (c - 1) / 2 ≡ t
        → 0 < t
        → key_at h.array ((t - 1) / 2) ≤ℤ key_at h.array c

  module _ (h : BinaryHeap V) (n t : ℕ) (x y : Kvp V) (r : Rising h n t) (positive : 0 < t)
      (atx : h.array t ≡ some x) (aty : h.array ((t - 1) / 2) ≡ some y) where
    Rising-swap :
        leb_ℤ y.key x.key ≡ false
        → Rising (record h { array = swapped h.array t ((t - 1) / 2) x y }) n ((t - 1) / 2)
    Rising-swap below = record {
      inside = omega arith;
      room = r.room;
      small = r.small;
      written = Written-swapped h.array n t ((t - 1) / 2) x y r.written;
      edges = λ c p q ne.
          ground (
            arith,
            at c,
            at ((c - 1) / 2),
            keyx,
            keyy,
            r.inside,
            r.edges c,
            r.bridged c,
            r.edges t,
          );
      bridged = λ c p q e pos. ground (
        arith,
        at c,
        at ((((t - 1) / 2) - 1) / 2),
        keyx,
        keyy,
        r.inside,
        r.edges c,
        r.edges ((t - 1) / 2),
      );
    }
      where
        keyx : key_at h.array t ≡ x.key
        keyx = key_at-some h.array t x atx

        keyy : key_at h.array ((t - 1) / 2) ≡ y.key
        keyy = key_at-some h.array ((t - 1) / 2) y aty

        at :
            (c : ℕ)
            → key_at (swapped h.array t ((t - 1) / 2) x y) c
              ≡ (if t == c then y.key else if (t - 1) / 2 == c then x.key else key_at h.array c)
        at c = key_at-swapped h.array t ((t - 1) / 2) c x y

  Sifted-swap :
      (h : BinaryHeap V) (n t : ℕ) (x y : Kvp V)
      → Rising h n t
      → 0 < t
      → h.array t ≡ some x
      → h.array ((t - 1) / 2) ≡ some y
      → (h' : BinaryHeap V) → Sifted n (record h { array = swapped h.array t ((t - 1) / 2) x y }) h'
      → Sifted n h h'
  Sifted-swap h n t x y r p atx aty h' s = record {
    allocated = s.allocated;
    used = s.used;
    written = s.written;
    heap = s.heap;
    same = λ w.
        s.same w
        ∙ tally-swap h t ((t - 1) / 2) x y (omega arith) (omega arith) atx aty w n r.inside
            (omega arith);
  }

  -- The loop restores the heap order, from an order that only the moving entry breaks.
  pub move_up_restores :
      (k : ℕ) (h : BinaryHeap V) (n t : ℕ)
      → t < k
      → Rising h n t
      → Returns (Sifted n h) (move_up k h t)
  unfolding move_up
  move_up_restores zero h n t f r = absurd (omega arith)
  move_up_restores (suc k) h n zero f r = returns (record {
    allocated = refl;
    used = refl;
    written = r.written;
    heap = λ c p q. r.edges c p q (omega arith);
    same = λ w. refl;
  })
  move_up_restores (suc k) h n (suc s) f r =
      let (x, atx) = r.written (suc s) r.inside in
      let (y, aty) = r.written ((suc s - 1) / 2) (omega arith) in
      rw
        (
          lt→ltb 0 (suc s) (omega arith),
          load-ok h (suc s) x (omega arith) atx,
          parent-ok (suc s) (omega arith),
          load-ok h ((suc s - 1) / 2) y (omega arith) aty,
        )
        (elim (Bool-cases (leb_ℤ y.key x.key)) [
          | inl stop ↦ rw stop (
              returns (record {
                allocated = refl;
                used = refl;
                written = r.written;
                heap = λ c p q. ground (
                  arith,
                  r.edges c,
                  key_at-some h.array (suc s) x,
                  key_at-some h.array ((suc s - 1) / 2) y,
                );
                same = λ w. refl;
              }))
          | inr rise ↦
              rw (rise, swap-ok h (suc s) ((suc s - 1) / 2) x y (omega arith) (omega arith) atx aty)
                (Returns-map
                  (move_up_restores k _ n ((suc s - 1) / 2) (omega arith)
                    (Rising-swap h n (suc s) x y r (omega arith) atx aty rise))
                  (Sifted-swap h n (suc s) x y r (omega arith) atx aty))
        ])
