-- ===== src/BinaryHeap/Queue.antt =====
-- The heap of src/binary_heap.c as a priority queue: add, trypop, and what a valid heap is.
use fsfuse.Base.{
  ℕ, lt→ltb, ltb→lt, ◌==◌, zero, suc, ◌+◌, ◌-◌, ◌/◌, ◌^◌, ◌≤◌, ◌<◌, ◌≡◌, refl, ap, ==_refl, ◌∙◌,
  Option, none, some, arith, ltb, Bool-cases, inl, inr, ok, Returns, returns, Returns-bind,
}
use mathlib.Core.Path.{ap₂}
use fsfuse.Base.Int.{ℤ, ◌≤ℤ◌}
use fsfuse.BinaryHeap.{
  Kvp, BinaryHeap, new, update, store, ensure_space, binary_heap_add, binary_heap_trypop,
}
use fsfuse.BinaryHeap.Order.{
  key_at, tally, Written, IsHeap, load-ok, key_at-some, key_at-update, tally-update,
  tally-update_above, tally_cong, weigh, tally-add_one,
}
use fsfuse.BinaryHeap.Up.{Sifted, Rising, move_up_restores}
use fsfuse.BinaryHeap.Down.{Sinking, move_down_restores}

module _ {V : Type 0} where
  pub record IsValid (h : BinaryHeap V) : Type 0 where
    pub room : h.used ≤ h.allocated
    pub written : Written h.array h.used
    pub heap : IsHeap h.array h.used

  -- The weight of the contents. It determines them up to order, as it does so for every weight.
  abbrev pub contents : (Kvp V → ℕ) → BinaryHeap V → ℕ
  contents w h = tally w h.array h.used

  abbrev pub entry : ℤ → V → Kvp V
  entry key value = record { key = key; value = value }

  pub record Added (h : BinaryHeap V) (e : Kvp V) (h' : BinaryHeap V) : Type 0 where
    pub valid : IsValid h'
    pub used : h'.used ≡ h.used + 1
    pub same : (w : Kvp V → ℕ) → contents w h' ≡ contents w h + w e

  -- What trypop gives on a heap that holds something: a least entry, and a valid heap of the rest.
  pub record Popped (h : BinaryHeap V) (r : Option (Kvp V) × BinaryHeap V) : Type 0 where
    pub top : Kvp V
    pub result : r.0 ≡ some top
    pub valid : IsValid r.1
    pub used : (r.1).used + 1 ≡ h.used
    pub least : (i : ℕ) → i < h.used → top.key ≤ℤ key_at h.array i
    pub same : (w : Kvp V → ℕ) → contents w r.1 + w top ≡ contents w h

  -- The write behind the heap and the loop, on a heap with room.
  module _ (g : BinaryHeap V) (v : IsValid g) (room : g.used < g.allocated) (e : Kvp V) where
    abbrev placed : BinaryHeap V
    placed = record g { array = update g.array g.used e }

    store-ok : store g g.used e ≡ ok placed
    unfolding store
    store-ok = rw (lt→ltb _ _ room)

    kept : (i : ℕ) → i < g.used → key_at placed.array i ≡ key_at g.array i
    kept i p = ground (arith, key_at-update g.array g.used i e)

    written : Written placed.array (g.used + 1)
    written i p = elim (Bool-cases (g.used == i)) [
      | inl same ↦ (e, rw same)
      | inr other ↦ let (d, q) = v.written i (ground arith) in (d, rw other q)
    ]

    written_weight : (w : Kvp V → ℕ) → weigh w (placed.array g.used) ≡ w e
    written_weight w = rw (==_refl g.used)

    Rising-placed : g.used + 1 < 2 ^ 30 → Rising placed (g.used + 1) g.used
    Rising-placed small = record {
      inside = omega arith;
      room = omega arith;
      small = small;
      written = written;
      edges = λ c p q ne. ground (arith, kept c, kept ((c - 1) / 2), v.heap c);
      bridged = λ c p q e' pos. absurd (omega arith);
    }

    Added-Sifted :
        (h' : BinaryHeap V)
        → Sifted (g.used + 1) placed h'
        → Added g e (record h' { used = h'.used + 1 })
    Added-Sifted h' s = record {
      valid = record {
        room = omega (arith, s.used, s.allocated);
        written = rw (s.used) s.written;
        heap = rw (s.used) s.heap;
      };
      used = omega (arith, s.used);
      same = λ w. rw (s.used) (
          s.same w
          ∙ tally-add_one w placed.array g.used
          ∙ ap₂ ◌+◌ (tally-update_above w g.array g.used g.used e (omega arith))
              (written_weight w));
    }

  module _ (h : BinaryHeap V) (v : IsValid h) where
    abbrev roomy : BinaryHeap V
    roomy = ensure_space h (h.used + 1)

    roomy-used : roomy.used ≡ h.used
    unfolding ensure_space
    roomy-used = ground arith

    roomy_room : h.used < roomy.allocated
    unfolding ensure_space
    roomy_room = ground arith

    roomy_keeps : (i : ℕ) → i < h.used → roomy.array i ≡ h.array i
    unfolding ensure_space
    roomy_keeps i p = ground (arith, v.room)

    roomy_key : (i : ℕ) → i < h.used → key_at roomy.array i ≡ key_at h.array i
    unfolding key_at
    roomy_key i p = rw (roomy_keeps i p, key_at)

    roomy-IsValid : IsValid roomy
    roomy-IsValid = record {
      room = omega (arith, roomy_room, roomy-used);
      written = λ i p.
          let q : i < h.used = omega (arith, roomy-used) in
          let (e, at) = v.written i q in (e, roomy_keeps i q ∙ at);
      heap = λ c p q. ground (arith, roomy-used, roomy_key c, roomy_key ((c - 1) / 2), v.heap c);
    }

    roomy-contents : (w : Kvp V → ℕ) → contents w roomy ≡ contents w h
    roomy-contents w = rw roomy-used (tally_cong w roomy.array h.array h.used roomy_keeps)

    Added-of_roomy : {e : Kvp V} {h' : BinaryHeap V} → Added roomy e h' → Added h e h'
    Added-of_roomy a = record {
      valid = a.valid;
      used = omega (arith, a.used, roomy-used);
      same = λ w. omega (arith, a.same w, roomy-contents w);
    }

    -- On a valid heap below the `int` bound the insertion ends without a fault, and the heap then
    -- is valid and holds the entry besides what it held.
    pub binary_heap_add_correct :
        (key : ℤ) (value : V)
        → h.used + 1 < 2 ^ 29
        → Returns (Added h (entry key value)) (binary_heap_add h key value)
    unfolding binary_heap_add
    binary_heap_add_correct key value small =
        let room : roomy.used < roomy.allocated = omega (arith, roomy-used, roomy_room) in
        let e = entry key value in
        let rising = Rising-placed roomy roomy-IsValid room e (omega (arith, roomy-used)) in
        rw (store-ok roomy roomy-IsValid room e) (
          Returns-bind
            (move_up_restores (roomy.used + 1) (placed roomy roomy-IsValid room e) (roomy.used + 1)
              (roomy.used) (omega arith) rising)
            λ h' s. returns (Added-of_roomy (Added-Sifted roomy roomy-IsValid room e h' s)))

  -- The root is least.
  root_least :
      (k : ℕ) (f : ℕ → Option (Kvp V)) (n i : ℕ)
      → IsHeap f n
      → i < k
      → i < n
      → key_at f 0 ≤ℤ key_at f i
  root_least zero f n i heap p q = absurd (omega arith)
  root_least (suc k) f n i heap p q = elim (Bool-cases (i == 0)) [
    | inl root ↦ ground arith
    | inr inner ↦ ground (arith, heap i, root_least k f n ((i - 1) / 2))
  ]

  module _ (h : BinaryHeap V) (n : ℕ) (v : IsValid h) (size : h.used ≡ n + 1) (top last : Kvp V)
      (at_top : h.array 0 ≡ some top) (at_last : h.array n ≡ some last) where
    -- The heap that the loop starts from, when something is left.
    abbrev cut : BinaryHeap V
    cut = record { allocated = h.allocated; used = n; array = update h.array 0 last }

    cut_key : (c : ℕ) → 0 < c → key_at cut.array c ≡ key_at h.array c
    cut_key c p = ground (arith, key_at-update h.array 0 c last)

    cut-Written : 0 < n → Written cut.array n
    cut-Written more i p = elim (Bool-cases (0 == i)) [
      | inl root ↦ (last, rw root)
      | inr inner ↦ let (d, q) = v.written i (omega arith) in (d, rw inner q)
    ]

    Sinking-cut : 0 < n → n < 2 ^ 29 → Sinking cut n 0
    Sinking-cut more small = record {
      size = refl;
      inside = more;
      room = omega (arith, v.room);
      small = small;
      written = cut-Written more;
      stale = ground arith;
      edges = λ c p q ne. ground (arith, v.heap c, cut_key c, cut_key ((c - 1) / 2));
      bridged = λ c p q e pos. absurd (omega arith);
    }

    least : (i : ℕ) → i < h.used → top.key ≤ℤ key_at h.array i
    least i p =
        ground (arith, root_least (i + 1) h.array h.used i v.heap, key_at-some h.array 0 top at_top)

    weights : (w : Kvp V → ℕ) → tally w h.array h.used ≡ tally w h.array n + w last
    weights w = rw (size, tally-add_one, at_last)

    Popped-Sifted : 0 < n → (h' : BinaryHeap V) → Sifted n cut h' → Popped h (some top, h')
    Popped-Sifted more h' s = record {
      top = top;
      result = refl;
      valid = record {
        room = omega (arith, s.used, s.allocated, v.room);
        written = rw (s.used) s.written;
        heap = rw (s.used) s.heap;
      };
      used = omega (arith, s.used);
      least = least;
      same = λ w.
          rw (s.used)
            (omega (arith, s.same w, weights w, tally-update w h.array n 0 last top more at_top));
    }

    Popped-last : n ≡ 0 → Popped h (some top, record h { used = n })
    Popped-last empty = record {
      top = top;
      result = refl;
      valid = record {
        room = omega arith;
        written = λ i p. absurd (omega arith);
        heap = λ c p q. absurd (omega arith);
      };
      used = omega arith;
      least = least;
      same = λ w. let single : last ≡ top = cc in omega (arith, weights w, ap w single);
    }

    store-cut : store (record h { used = n }) 0 last ≡ ok cut
    unfolding store
    store-cut = rw (lt→ltb 0 h.allocated (omega (arith, v.room)))

    trypop_some : n < 2 ^ 29 → Returns (Popped h) (binary_heap_trypop h)
    unfolding binary_heap_trypop
    trypop_some small =
        let rest : h.used - 1 ≡ n = omega arith in
        rw (lt→ltb 0 h.used (omega arith), load-ok h 0 top (omega (arith, v.room)) at_top, rest)
          (elim (Bool-cases (ltb 0 n)) [
            | inr none_left ↦ rw none_left (returns (Popped-last (ground arith)))
            | inl more ↦
                rw
                  (
                    more,
                    load-ok (record h { used = n }) n last (omega (arith, v.room)) at_last,
                    store-cut,
                  )
                  (Returns-bind
                    (move_down_restores (n + 1) cut n 0 (omega arith)
                      (Sinking-cut (ltb→lt _ _ more) small))
                    λ h' s. returns (Popped-Sifted (ltb→lt _ _ more) h' s))
          ])

  -- On a valid heap that holds something, trypop ends without a fault, with a least entry, and
  -- leaves a valid heap of the other entries.
  pub binary_heap_trypop_correct :
      (h : BinaryHeap V)
      → IsValid h
      → 0 < h.used
      → h.used < 2 ^ 29
      → Returns (Popped h) (binary_heap_trypop h)
  binary_heap_trypop_correct h v some_left small =
      let (top, at_top) = v.written 0 some_left in
      let (last, at_last) = v.written (h.used - 1) (omega arith) in
      trypop_some h (h.used - 1) v (omega arith) top last at_top at_last (omega arith)

  pub binary_heap_trypop-empty :
      (h : BinaryHeap V) → h.used ≡ 0 → binary_heap_trypop h ≡ ok (none, h)
  unfolding binary_heap_trypop
  binary_heap_trypop-empty h empty = ground arith

  pub new-IsValid : IsValid (new {V = V})
  unfolding new
  new-IsValid = record {
    room = omega arith;
    written = λ i p. absurd (omega arith);
    heap = λ c p q. absurd (omega arith);
  }
