-- ===== src/PeerStats/Choice.antt =====
-- peerstats_chose_alternative of src/peerstats.c: which alternative, and the references it leaves.
use fsfuse.Base.{
  ℕ, zero, suc, ◌+◌, ◌%◌, ◌≤◌, ◌<◌, ◌≡◌, refl, ap, Bool, true, false, Option, none, some, List, [],
  ◌∷◌, length, ok, ◌>>=◌, arith, Returns, returns, Returns-bind, Returns-map, if◌then◌else◌,
}
use native.Mathlib.Nat.{mod-lt}
use fsfuse.Base.Bytes.{Str}
use fsfuse.Listing.{Store, nth, listing_list_delete}
use fsfuse.Listing.Counts.{
  Shifted, Shifted-of_same, Roomy, AllRoomy, one_more, list_delete-Shifted, tally, pointers,
}
use fsfuse.Listing.Fill.{get_item-Shifted}
use fsfuse.PeerStats.{draw, pick, peerstats_chose_alternative}
use fsfuse.PeerStats.Filling.{keep, counts, length-pointers, counts_le}
use fsfuse.PeerStats.Split.{is_favourite, is_normal, is_block, split_list-Parted, length-keep}

pub data In (p : ℕ) : List ℕ → Type 0 where
  here : {xs : List ℕ} → In p (p ∷ xs)
  there : {x : ℕ} {xs : List ℕ} → In p xs → In p (x ∷ xs)

nth-In : (xs : List ℕ) (i : ℕ) → i < length xs → (p : ℕ) × (nth i (pointers xs) ≡ some p) × In p xs
unfolding nth
nth-In [] i lt = absurd (omega (arith, lt))
nth-In (x ∷ xs) zero lt = (x, refl, here)
nth-In (x ∷ xs) (suc i) lt = let r = nth-In xs i (omega (arith, lt)) in (r.0, r.1, there r.2)

keep-In : (test : ℕ → Bool) (xs : List ℕ) {p : ℕ} → In p (keep test xs) → In p xs × (test p ≡ true)
unfolding keep
keep-In test [] m = elim m [ ]
keep-In test (x ∷ xs) m = head_or_rest (test x) refl (λ p k. keep-In test xs k) m
  where
    head_or_rest :
        (b : Bool)
        → test x ≡ b
        → ((p : ℕ) → In p (keep test xs) → In p xs × (test p ≡ true))
        → {p : ℕ} → In p (if b then x ∷ keep test xs else keep test xs)
        → In p (x ∷ xs) × (test p ≡ true)
    head_or_rest true e rest here = (here, e)
    head_or_rest true e rest (there m) = let r = rest _ m in (there r.0, r.1)
    head_or_rest false e rest m = let r = rest _ m in (there r.0, r.1)

Roomy-of_In : (n : ℕ) (st : Store) (xs : List ℕ) {p : ℕ} → AllRoomy n st xs → In p xs → Roomy n st p
unfolding AllRoomy
Roomy-of_In n st [] r m = elim m [ ]
Roomy-of_In n st (x ∷ xs) r here = r.0
Roomy-of_In n st (x ∷ xs) r (there m) = Roomy-of_In n st xs r.1 m

keep-AllRoomy :
    (n : ℕ) (st : Store) (test : ℕ → Bool) (xs : List ℕ)
    → AllRoomy n st xs
    → AllRoomy n st (keep test xs)
unfolding keep AllRoomy
keep-AllRoomy n st test [] r = tt
keep-AllRoomy n st test (x ∷ xs) r = head_or_rest (test x) (keep-AllRoomy n st test xs r.1)
  where
    head_or_rest :
        (b : Bool)
        → AllRoomy n st (keep test xs)
        → AllRoomy n st (if b then x ∷ keep test xs else keep test xs)
    head_or_rest true rest = (r.0, rest)
    head_or_rest false rest = rest

-- The reference that comes with an item.
pub one_for : Option ℕ → (ℕ → ℕ) → ℕ → ℕ
one_for none f = f
one_for (some p) f = one_more p f

record Drawn (st0 : Store) (f : ℕ → ℕ) (xs : List ℕ) (r : Option ℕ × Store) : Type 0 where
  item : ℕ
  got : r.0 ≡ some item
  member : In item xs
  references : Shifted (one_more item f) st0 r.1

draw-Drawn :
    (f : ℕ → ℕ) (n : ℕ) (st0 st : Store) (xs : List ℕ) (random : ℕ)
    → 0 < length xs
    → Shifted f st0 st
    → ((p : ℕ) → In p xs → Roomy n st0 p × (f p < n))
    → Returns (Drawn st0 f xs) (draw random (pointers xs) st)
unfolding draw
draw-Drawn f n st0 st xs random some_there s each = rw (length-pointers xs) (
    let r = nth-In xs (random % length xs) (mod-lt random some_there) in
    let e = each r.0 r.2 in
    Returns-bind (get_item-Shifted f n st0 st xs (random % length xs) r.1 s e.0 e.1)
      (λ out o. returns (record { item = r.0; got = ap some o.0; member = r.2; references = o.1 })))

-- What the pick takes from the favourites and the others.
data From (favs normals : List ℕ) : Option ℕ → Type 0 where
  from_favs : {p : ℕ} → In p favs → From favs normals (some p)
  from_normals : {p : ℕ} → favs ≡ [] → In p normals → From favs normals (some p)
  from_nobody : favs ≡ [] → normals ≡ [] → From favs normals none

pick-From :
    (f : ℕ → ℕ) (n : ℕ) (st0 st : Store) (favs normals : List ℕ) (random : ℕ)
    → Shifted f st0 st
    → ((p : ℕ) → In p favs → Roomy n st0 p × (f p < n))
    → ((p : ℕ) → In p normals → Roomy n st0 p × (f p < n))
    → Returns
        (λ r. From favs normals r.0 × Shifted (one_for r.0 f) st0 r.1)
        (pick random (pointers favs) (pointers normals) st)
unfolding pick one_for
pick-From f n st0 st [] [] random s eachf eachn = returns (from_nobody refl refl, s)
pick-From f n st0 st [] (x ∷ normals) random s eachf eachn =
    Returns-map (draw-Drawn f n st0 st (x ∷ normals) random (omega arith) s eachn)
      (λ r d. rw d.got (from_normals refl d.member, d.references))
pick-From f n st0 st (x ∷ favs) normals random s eachf eachn =
    Returns-map (draw-Drawn f n st0 st (x ∷ favs) random (omega arith) s eachf)
      (λ r d. rw d.got (from_favs d.member, d.references))

spread :
    (ret : Option ℕ) (a b c : List ℕ) (q : ℕ)
    → one_for ret (counts a b c) q ≡ tally q a + (tally q b + (tally q c + one_for ret (λ x. 0) q))
unfolding one_for one_more counts
spread none a b c q = omega arith
spread (some p) a b c q = ground arith

module _ (favs blocks : Option (List Str)) (st0 : Store) (xs : List ℕ) where
  -- A favourite if there is one, else an alternative of a client that is not blocked, if there is one.
  pub data Chosen : Option ℕ → Type 0 where
    favourite : {p : ℕ} → In p xs → is_favourite favs blocks st0 p ≡ true → Chosen (some p)
    ordinary :
        {p : ℕ}
        → keep (is_favourite favs blocks st0) xs ≡ []
        → In p xs
        → is_normal favs blocks st0 p ≡ true
        → Chosen (some p)
    nobody :
        keep (is_favourite favs blocks st0) xs ≡ []
        → keep (is_normal favs blocks st0) xs ≡ []
        → Chosen none

  of_From :
      {ret : Option ℕ}
      → From (keep (is_favourite favs blocks st0) xs) (keep (is_normal favs blocks st0) xs) ret
      → Chosen ret
  of_From (from_favs m) = let r = keep-In _ xs m in favourite r.0 r.1
  of_From (from_normals e m) = let r = keep-In _ xs m in ordinary e r.0 r.1
  of_From (from_nobody e d) = nobody e d

  held_by :
      (test : ℕ → Bool) (c : ℕ → ℕ)
      → ((q : ℕ) → c q ≤ length xs)
      → AllRoomy (length xs + 2) st0 xs
      → (p : ℕ) → In p (keep test xs)
      → Roomy (length xs + 2) st0 p × (c p < length xs + 2)
  held_by test c le r p m = (Roomy-of_In _ st0 xs r (keep-In test xs m).0, omega (arith, le p))

  abbrev fav_list : List ℕ
  fav_list = keep (is_favourite favs blocks st0) xs

  abbrev normal_list : List ℕ
  normal_list = keep (is_normal favs blocks st0) xs

  abbrev block_list : List ℕ
  block_list = keep (is_block favs blocks st0) xs

  counts_bound : (q : ℕ) → counts fav_list normal_list block_list q ≤ length xs
  counts_bound q =
      omega (arith, counts_le fav_list normal_list block_list q, length-keep favs blocks st0 xs)

  -- The deletions of the three lists leave the reference that is returned.
  deletions :
      (ret : Option ℕ) (st2 : Store)
      → AllRoomy (length xs + 2) st0 xs
      → Shifted (one_for ret (counts fav_list normal_list block_list)) st0 st2
      → Returns
          (λ (r : Option ℕ × Store). (r.0 ≡ ret) × Shifted (one_for ret (λ x. 0)) st0 r.1)
          (do
            st3 ← listing_list_delete (pointers fav_list) st2
            st4 ← listing_list_delete (pointers normal_list) st3
            st5 ← listing_list_delete (pointers block_list) st4
            ok (ret, st5))
  deletions ret st2 r s =
      Returns-bind
        (list_delete-Shifted
          (λ q. tally q normal_list + (tally q block_list + one_for ret (λ x. 0) q)) (length xs + 2)
          st0 fav_list st2 (keep-AllRoomy _ st0 _ xs r)
          (Shifted-of_same _ _ st0 st2 (spread ret fav_list normal_list block_list) s))
        (λ st3 s3.
          Returns-bind
            (list_delete-Shifted (λ q. tally q block_list + one_for ret (λ x. 0) q) (length xs + 2)
              st0 normal_list st3 (keep-AllRoomy _ st0 _ xs r) s3)
            (λ st4 s4.
              Returns-bind
                (list_delete-Shifted (one_for ret (λ x. 0)) (length xs + 2) st0 block_list st4
                  (keep-AllRoomy _ st0 _ xs r) s4)
                (λ st5 s5. returns (refl, s5))))

  -- On alternatives that are there, the choice ends with a favourite if there is one, else with an
  -- alternative of a client that is not blocked if there is one, else with none; and one reference
  -- more, to what it returns, is all that it leaves.
  pub peerstats_chose_alternative-Chosen :
      (random : ℕ)
      → AllRoomy (length xs + 2) st0 xs
      → Returns
          (λ r. Chosen r.0 × Shifted (one_for r.0 (λ q. 0)) st0 r.1)
          (peerstats_chose_alternative (pointers xs) favs blocks random st0)
  unfolding peerstats_chose_alternative
  peerstats_chose_alternative-Chosen random r =
      Returns-bind (split_list-Parted favs blocks st0 xs r) (λ out y.
        rw (y.fav_list, y.normal_list, y.block_list)
          (Returns-bind
            (pick-From (counts fav_list normal_list block_list) (length xs + 2) st0 out.3 fav_list
              normal_list random y.references
              (held_by (is_favourite favs blocks st0) (counts fav_list normal_list block_list)
                counts_bound r)
              (held_by (is_normal favs blocks st0) (counts fav_list normal_list block_list)
                counts_bound r))
            (λ chosen c.
              Returns-map (deletions chosen.0 chosen.1 r c.1)
                (λ final d. rw d.0 (of_From c.0, d.1)))))
