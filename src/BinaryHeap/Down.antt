-- ===== src/BinaryHeap/Down.antt =====
-- move_down of src/binary_heap.c. The test for a right child is the wrong way round in the source:
-- the right child of the last parent may be the cell behind the heap. It is harmless, since that
-- cell still holds the entry that moves down.
use fsfuse.Base.{
  ℕ, ltb→lt, ◌==◌, if◌then◌else◌, zero, suc, ◌+◌, ◌-◌, ◌*◌, ◌/◌, ◌^◌, ◌≤◌, ◌<◌, ◌≡◌, refl, ap, ◌∙◌,
  ◌≢◌, true, false, ◌⊎◌, some, arith, ltb, Bool-cases, inl, inr, ok, Returns, returns, Returns-map,
  Returns-bind,
}
use fsfuse.Base.Int.{◌≤ℤ◌, leb_ℤ, ltb_ℤ}
use fsfuse.BinaryHeap.{Kvp, BinaryHeap, left_child, right_child, pick_child, move_down}
use fsfuse.BinaryHeap.Order.{
  key_at, Written, load-ok, swapped, swap-ok, tally-swap, Written-swapped, key_at-some,
  key_at-swapped,
}
use fsfuse.BinaryHeap.Up.{Sifted}

pub left-ok : (t : ℕ) → t < 2 ^ 29 → left_child t ≡ ok (2 * t + 1)
unfolding left_child
left-ok t h = ground arith

pub right-ok : (t : ℕ) → t < 2 ^ 29 → right_child t ≡ ok (2 * t + 2)
unfolding right_child
right-ok t h = ground arith

module _ {V : Type 0} where
  -- Every edge is in order but those below `t`, the edges past `t` are, and the cell behind the
  -- heap holds the entry at `t`.
  pub record Sinking (h : BinaryHeap V) (n t : ℕ) : Type 0 where
    pub size : h.used ≡ n
    pub inside : t < n
    pub room : n < h.allocated
    pub small : n < 2 ^ 29
    pub written : Written h.array n
    pub stale : h.array n ≡ h.array t
    pub edges :
        (c : ℕ) → 0 < c → c < n → (c - 1) / 2 ≢ t → key_at h.array ((c - 1) / 2) ≤ℤ key_at h.array c
    pub bridged :
        (c : ℕ)
        → 0 < c
        → c < n
        → (c - 1) / 2 ≡ t
        → 0 < t
        → key_at h.array ((t - 1) / 2) ≤ℤ key_at h.array c

  -- A child's cell with a key below no child's: it lies in the heap, or holds the moving entry.
  pub record Picked (h : BinaryHeap V) (n t : ℕ) (x : Kvp V) (pick : ℕ × Kvp V) : Type 0 where
    pub least : (c : ℕ) → 0 < c → c < n → (c - 1) / 2 ≡ t → pick.1.key ≤ℤ key_at h.array c
    pub at : (pick.0 < n) ⊎ (pick.1 ≡ x)
    pub holds : h.array pick.0 ≡ some pick.1
    pub edge : (pick.0 ≡ 2 * t + 1) ⊎ (pick.0 ≡ 2 * t + 2)

  module _ (h : BinaryHeap V) (n t : ℕ) (x : Kvp V) (s : Sinking h n t)
      (atx : h.array t ≡ some x) where
    abbrev Beyond : Type 0
    Beyond = (e : Kvp V) × (h.array (2 * t + 2) ≡ some e) × ((2 * t + 2 < n) ⊎ (e ≡ x))

    right_cell : t < n / 2 → Beyond
    right_cell more = elim (Bool-cases (ltb (2 * t + 2) n)) [
      | inl inner ↦
          let (e, p) = s.written (2 * t + 2) (ltb→lt _ _ inner) in (e, p, inl (ltb→lt _ _ inner))
      | inr last ↦
          let at_end : 2 * t + 2 ≡ n = ground arith in (x, rw at_end (s.stale ∙ atx), inr refl)
    ]

    child_cases : (c : ℕ) → 0 < c → (c - 1) / 2 ≡ t → (c ≡ 2 * t + 1) ⊎ (c ≡ 2 * t + 2)
    child_cases c p e = elim (Bool-cases (c == 2 * t + 1)) [
      | inl left ↦ inl (ground arith)
      | inr right ↦ inr (ground arith)
    ]

    module _ (more : t < n / 2) (l e : Kvp V) (atl : h.array (2 * t + 1) ≡ some l)
        (ate : h.array (2 * t + 2) ≡ some e) (where_e : (2 * t + 2 < n) ⊎ (e ≡ x)) where
      pick_right : ltb_ℤ e.key l.key ≡ true → Picked h n t x (2 * t + 2, e)
      pick_right less = record {
        least = λ c p q r. elim (child_cases c p r) [
          | inl isl ↦ (ground (arith, key_at-some h.array c l (ap h.array isl ∙ atl)))
          | inr isr ↦ (ground (arith, key_at-some h.array c e (ap h.array isr ∙ ate)))
        ];
        at = where_e;
        holds = ate;
        edge = inr refl;
      }

      pick_left : ltb_ℤ e.key l.key ≡ false → Picked h n t x (2 * t + 1, l)
      pick_left more_eq = record {
        least = λ c p q r. elim (child_cases c p r) [
          | inl isl ↦ (ground (arith, key_at-some h.array c l (ap h.array isl ∙ atl)))
          | inr isr ↦ (ground (arith, key_at-some h.array c e (ap h.array isr ∙ ate)))
        ];
        at = inl (omega arith);
        holds = atl;
        edge = inl refl;
      }

      pick-at : Returns (Picked h n t x) (pick_child h t)
      unfolding pick_child
      pick-at =
          let past : ltb (h.used - 1) (2 * t + 1) ≡ false = ground (arith, s.size) in
          rw
            (
              left-ok t (omega arith),
              load-ok h (2 * t + 1) l (omega arith) atl,
              right-ok t (omega arith),
              load-ok h (2 * t + 2) e (omega arith) ate,
              past,
            )
            (elim (Bool-cases (ltb_ℤ e.key l.key)) [
              | inl right ↦ rw right (returns (pick_right right))
              | inr left ↦ rw left (returns (pick_left left))
            ])

    -- The pick does not fail, and is right.
    pub pick_child-Picked : t < n / 2 → Returns (Picked h n t x) (pick_child h t)
    pick_child-Picked more =
        let (l, atl) = s.written (2 * t + 1) (omega arith) in
        let (e, ate, where_e) = right_cell more in pick-at more l e atl ate where_e

  module _ (h : BinaryHeap V) (n t : ℕ) (x : Kvp V) (s : Sinking h n t) (atx : h.array t ≡ some x)
      (pick : ℕ × Kvp V) (picked : Picked h n t x pick)
      (above : leb_ℤ x.key (pick.1).key ≡ false) where
    abbrev p : ℕ
    p = pick.0

    abbrev y : Kvp V
    y = pick.1

    in_heap : p < n
    in_heap = elim (picked.at) [
      | inl below ↦ below
      | inr same ↦ absurd (ground (arith, ap (λ (e : Kvp V). e.key) same))
    ]

    at :
        (c : ℕ)
        → key_at (swapped h.array t p x y) c
          ≡ (if t == c then y.key else if p == c then x.key else key_at h.array c)
    at c = key_at-swapped h.array t p c x y

    stale : swapped h.array t p x y n ≡ swapped h.array t p x y p
    unfolding swapped
    stale = ground (arith, in_heap, picked.edge, s.stale, s.inside)

    Sinking-swap : Sinking (record h { array = swapped h.array t p x y }) n p
    Sinking-swap = record {
      size = s.size;
      inside = in_heap;
      room = s.room;
      small = s.small;
      written = Written-swapped h.array n t p x y s.written;
      stale = stale;
      edges = λ c q r ne. ground (
        arith,
        at c,
        at ((c - 1) / 2),
        key_at-some h.array t x atx,
        in_heap,
        picked.edge,
        s.edges c,
        s.bridged p,
        key_at-some h.array p y picked.holds,
        picked.least c,
      );
      bridged = λ c q r e pos. ground (
        arith,
        at c,
        at ((p - 1) / 2),
        in_heap,
        picked.edge,
        key_at-some h.array p y picked.holds,
        s.edges c,
      );
    }

    Sifted-swap :
        (h' : BinaryHeap V)
        → Sifted n (record h { array = swapped h.array t p x y }) h'
        → Sifted n h h'
    Sifted-swap h' r = record {
      allocated = r.allocated;
      used = r.used;
      written = r.written;
      heap = r.heap;
      same = λ w.
          r.same w
          ∙ tally-swap h t p x y (omega (arith, s.inside, s.room)) (omega (arith, in_heap, s.room))
              atx picked.holds w n s.inside in_heap;
    }

module _ {V : Type 0} where
  unmoved :
      (h : BinaryHeap V) (n t : ℕ)
      → Sinking h n t
      → ((c : ℕ) → 0 < c → c < n → (c - 1) / 2 ≡ t → key_at h.array t ≤ℤ key_at h.array c)
      → Sifted n h h
  unmoved h n t s below = record {
    allocated = refl;
    used = refl;
    written = s.written;
    heap = λ c p q. elim (Bool-cases ((c - 1) / 2 == t)) [
      | inl same ↦ ground (arith, below c)
      | inr other ↦ s.edges c p q (ground arith)
    ];
    same = λ w. refl;
  }

  -- The loop restores the heap order, from an order that only the moving entry breaks.
  pub move_down_restores :
      (k : ℕ) (h : BinaryHeap V) (n t : ℕ)
      → n - t ≤ k
      → Sinking h n t
      → Returns (Sifted n h) (move_down k h t)
  unfolding move_down
  move_down_restores zero h n t f s = absurd (omega (arith, s.inside))
  move_down_restores (suc k) h n t f s =
      let (x, atx) = s.written t s.inside in
      elim (Bool-cases (ltb t (h.used / 2))) [
        | inr leaf ↦
            rw leaf (returns (unmoved h n t s (λ c p q e. absurd (ground (arith, s.size)))))
        | inl more ↦
            rw (more, load-ok h t x (omega arith) atx)
              (Returns-bind (pick_child-Picked h n t x s atx (ground (arith, s.size)))
                λ pick picked. elim (Bool-cases (leb_ℤ x.key (pick.1).key)) [
                  | inl stop ↦ rw stop (
                      returns (
                        unmoved h n t s
                          λ c p q e. ground (arith, picked.least c, key_at-some h.array t x atx)))
                  | inr above ↦
                      rw
                        (
                          above,
                          swap-ok h t (pick.0) x (pick.1) (omega (arith, s.inside, s.room))
                              (omega (arith, in_heap h n t x s atx pick picked above, s.room)) atx
                              picked.holds,
                        )
                        (Returns-map
                          (move_down_restores k _ n (pick.0) (omega (arith, s.inside, picked.edge))
                            (Sinking-swap h n t x s atx pick picked above))
                          (Sifted-swap h n t x s atx pick picked above))
                ])
      ]
