-- ===== src/Direntries/Siblings.antt =====
-- Children by their names, and lists of siblings, of src/nativefs/direntry.c.
use fsfuse.Base.{
  ℕ, ◌+◌, ◌≤◌, ◌<◌, ◌≡◌, refl, inl, inr, true, Option, none, some, List, [], ◌∷◌, if◌then◌else◌,
  length, arith, Bool-cases, lt→ltb, Returns, returns, Returns-bind, ◌>>=◌, ok,
}
use mathlib.Core.Path.{subst}
use fsfuse.Base.Bytes.{Str, str_eq}
use fsfuse.Base.Errno.{eio}
use fsfuse.Base.Heap.{Heap}
use fsfuse.Listing.Counts.{Shifted-refl, Shifted-of_same, one_more, copy-Shifted}
use fsfuse.Direntries.{
  Tree, copied, direntry_get_next_sibling, step_sibling, direntry_get_first_child, find_child,
  child_by_name, direntry_get_child_by_name, direntry_ensure_children, direntry_delete_list,
  Indexnode,
}
use fsfuse.FuseMethods.{inode_map_get, direntry_get_by_inode}
use fsfuse.Direntries.Above.{
  Node, Held, Held-refl, linked_lem, direntry_get_name_lem, copied-Held, deleted-Held,
}

-- These are the direntry at `first` and its siblings behind it.
unfoldable pub Siblings : ℕ → Tree → Option ℕ → List ℕ → Type 0
Siblings n t first [] = first ≡ none
Siblings n t first (p ∷ ps) = (first ≡ some p) × ((node : Node n t p) × Siblings n t node.l.next ps)

-- The first of them with a name.
unfoldable pub named :
    (n : ℕ) (t : Tree) (first : Option ℕ) (ps : List ℕ) → Siblings n t first ps → Str → Option ℕ
unfolding Siblings
named n t first [] s name = none
named n t first (p ∷ ps) (e, (node, later)) name =
    if str_eq node.roomy.li.name name then some p else named n t node.l.next ps later name

-- One reference more to the direntry found.
unfoldable pub more_found : Option ℕ → (ℕ → ℕ) → ℕ → ℕ
more_found none f = f
more_found (some p) f = one_more p f

-- The call for a pointer to a sibling or a child, which may be NULL.
pub copied_or_none :
    (f : ℕ → ℕ) (n : ℕ) (t0 t : Tree) (first : Option ℕ) (ps : List ℕ)
    → Held f t0 t
    → Siblings n t0 first ps
    → ((x : ℕ) → f x < n)
    → Returns (λ r. (r.0 ≡ first) × Held (more_found first f) t0 r.1) (copied first t)
unfolding Siblings copied more_found
copied_or_none f n t0 t first [] h s lt = rw s (returns (refl, h))
copied_or_none f n t0 t first (p ∷ ps) h (e, (node, later)) lt =
    rw e (copied-Held f n p t0 t h node (lt p))

swapped : (p q : ℕ) (f : ℕ → ℕ) (x : ℕ) → one_more q (one_more p f) x ≡ one_more p (one_more q f) x
unfolding one_more
swapped p q f x = ground arith

pub Held-of_same : (f g : ℕ → ℕ) {t0 t : Tree} → ((x : ℕ) → f x ≡ g x) → Held f t0 t → Held g t0 t
Held-of_same f g {t0} {t} same h = record {
  store = Shifted-of_same f g t0.fs.store t.fs.store same h.store;
  links = h.links;
}

one_more_lt : (p : ℕ) (f : ℕ → ℕ) (n : ℕ) → ((x : ℕ) → f x + 1 < n) → (x : ℕ) → one_more p f x < n
unfolding one_more
one_more_lt p f n lt x = let h = lt x in ground arith

more_swapped :
    (first : Option ℕ) (q : ℕ) (f : ℕ → ℕ) (x : ℕ)
    → more_found first (one_more q f) x ≡ one_more q (more_found first f) x
unfolding more_found
more_swapped none q f x = refl
more_swapped (some p) q f x = swapped q p f x

-- The step from a direntry that is held to its next sibling, held in its place.
pub step-Held :
    (f : ℕ → ℕ) (n p : ℕ) (t0 t : Tree) (ps : List ℕ)
    → Held (one_more p f) t0 t
    → (node : Node n t0 p) → Siblings n t0 node.l.next ps
    → ((x : ℕ) → f x + 1 < n)
    → Returns (λ r. (r.0 ≡ node.l.next) × Held (more_found node.l.next f) t0 r.1) (step_sibling p t)
unfolding step_sibling direntry_get_next_sibling
step-Held f n p t0 t ps h node s lt = rw (linked_lem (one_more p f) h node) (
    Returns-bind (copied_or_none (one_more p f) n t0 t node.l.next ps h s (one_more_lt p f n lt))
      (λ r c.
        Returns-bind
          (deleted-Held (more_found node.l.next f) n p t0 r.1
            (Held-of_same _ _ (more_swapped node.l.next p f) c.1) node)
          (λ t2 h2. returns (c.0, h2))))

-- The direntry that is found is held, and nothing else.
find_child-Found :
    (f : ℕ → ℕ) (n : ℕ) (t0 : Tree) (name : Str) (ps : List ℕ) (first : Option ℕ) (t : Tree)
    → (s : Siblings n t0 first ps) → Held (more_found first f) t0 t
    → ((x : ℕ) → f x + 1 < n)
    → Returns
        (λ r.
          (r.0 ≡ named n t0 first ps s name)
          × Held (more_found (named n t0 first ps s name) f) t0 r.1)
        (find_child (length ps) first name t)
unfolding find_child Siblings named more_found
find_child-Found f n t0 name [] first t s h lt =
    rw s (returns (refl, subst (λ o. Held (more_found o f) t0 t) s h))
find_child-Found f n t0 name (p ∷ ps) first t (e, (node, later)) h lt =
    let held = subst (λ o. Held (more_found o f) t0 t) e h in
    rw (e, direntry_get_name_lem (one_more p f) held node)
      (elim (Bool-cases (str_eq node.roomy.li.name name)) [
        | inl same ↦ rw same (returns (refl, held))
        | inr differs ↦ rw differs (
            Returns-bind (step-Held f n p t0 t ps held node later lt)
              (λ r c. rw c.0 (find_child-Found f n t0 name ps node.l.next r.1 later c.1 lt)))
      ])

-- A directory whose children were looked for, with them.
pub record Directory (n : ℕ) (t : Tree) (p : ℕ) (ps : List ℕ) : Type 0 where
  pub node : Node n t p
  pub looked : node.l.looked_for_children ≡ true
  pub children : Siblings n t node.l.children ps

-- What a search leaves: the direntry found has one reference more, and all else is as it was.
pub record FoundIn (t0 : Tree) (found : Option ℕ) (r : Option ℕ × Heap × Tree) : Type 0 where
  pub child : r.0 ≡ found
  pub tree : Held (more_found found (λ x. 0)) t0 r.2

pub ensure_children_again :
    (f : ℕ → ℕ) {n de : ℕ} {ps : List ℕ} {t0 t : Tree} (fuel : ℕ) (indexnode : Indexnode) (h : Heap)
    → Held f t0 t
    → Directory n t0 de ps
    → direntry_ensure_children fuel indexnode de h t ≡ ok (eio, h, t)
unfolding direntry_ensure_children
ensure_children_again f fuel indexnode h held d = rw (linked_lem f held d.node, d.looked) refl

one_more_nothing : (p x : ℕ) → one_more p (λ y. 0) x ≤ 1
unfolding one_more
one_more_nothing p x = ground arith

child_by_name-FoundIn :
    (n fuel de : ℕ) (ps : List ℕ) (indexnode : Indexnode) (name : Str) (h : Heap) (t0 t : Tree)
    → (d : Directory n t0 de ps) → 2 < n
    → fuel ≡ length ps
    → Held (one_more de (λ x. 0)) t0 t
    → Returns
        (FoundIn t0 (named n t0 d.node.l.children ps d.children name))
        (child_by_name fuel indexnode (some de) name h t)
unfolding child_by_name direntry_get_first_child
child_by_name-FoundIn n fuel de ps indexnode name h t0 t d lt e held =
    let room : (x : ℕ) → one_more de (λ y. 0) x + 1 < n =
      (λ x. omega (arith, one_more_nothing de x)) in
    rw
      (
        ensure_children_again (one_more de (λ x. 0)) fuel indexnode h held d,
        linked_lem (one_more de (λ x. 0)) held d.node,
        e,
      )
      (Returns-bind
        (copied_or_none (one_more de (λ x. 0)) n t0 t d.node.l.children ps held d.children
          (λ x. omega (arith, one_more_nothing de x)))
        (λ r2 c2. rw c2.0 (
          Returns-bind
            (find_child-Found (one_more de (λ x. 0)) n t0 name ps d.node.l.children r2.1 d.children
              c2.1 room)
            (λ r3 c3.
              Returns-bind
                (deleted-Held
                  (more_found (named n t0 d.node.l.children ps d.children name) (λ x. 0)) n de t0
                  r3.1 (Held-of_same _ _ (more_swapped _ de (λ x. 0)) c3.1) d.node)
                (λ t4 h4. returns (record { child = c3.0; tree = h4 }))))))

by_inode-Held :
    (n ino de : ℕ) (t : Tree)
    → t.fs.inode_map ino ≡ some de
    → ino < t.fs.inode_map_used
    → Node n t de
    → 0 < n
    → Returns
        (λ r. (r.0 ≡ some de) × Held (one_more de (λ x. 0)) t (record t { fs = r.1 }))
        (direntry_get_by_inode ino t.fs)
unfolding direntry_get_by_inode inode_map_get
by_inode-Held n ino de t e used node lt =
    rw (lt→ltb ino t.fs.inode_map_used used, e)
      (Returns-bind
        (copy-Shifted (λ x. 0) n t.fs.store t.fs.store de (Shifted-refl t.fs.store) node.roomy lt)
        (λ store s. returns (refl, record { store = s; links = refl })))

-- In a directory whose children were looked for, direntry_get_child_by_name ends: it finds the
-- first child with the name, or none, and takes one reference to what it found; every other count,
-- that of the directory too, and all links are as before. The counts have room for two references
-- more.
pub direntry_get_child_by_name-FoundIn :
    (n ino de : ℕ) (ps : List ℕ) (indexnode : Indexnode) (name : Str) (h : Heap) (t : Tree)
    → t.fs.inode_map ino ≡ some de
    → ino < t.fs.inode_map_used
    → (d : Directory n t de ps) → 2 < n
    → Returns
        (FoundIn t (named n t d.node.l.children ps d.children name))
        (direntry_get_child_by_name (length ps) indexnode ino name h t)
unfolding direntry_get_child_by_name
direntry_get_child_by_name-FoundIn n ino de ps indexnode name h t e used d lt =
    Returns-bind (by_inode-Held n ino de t e used d.node (omega arith)) (λ r c. rw c.0 (
      child_by_name-FoundIn n (length ps) de ps indexnode name h t (record t { fs = r.1 }) d lt refl
        c.1))

delete_list-Held :
    (f : ℕ → ℕ) (n : ℕ) (t0 : Tree) (ps : List ℕ) (first : Option ℕ) (t : Tree)
    → Siblings n t0 first ps
    → Held (more_found first f) t0 t
    → ((x : ℕ) → f x + 1 < n)
    → Returns (Held f t0) (direntry_delete_list (length ps) first t)
unfolding direntry_delete_list Siblings more_found
delete_list-Held f n t0 [] first t s h lt =
    rw s (returns (subst (λ o. Held (more_found o f) t0 t) s h))
delete_list-Held f n t0 (p ∷ ps) first t (e, (node, later)) h lt = rw e (
    Returns-bind
      (step-Held f n p t0 t ps (subst (λ o. Held (more_found o f) t0 t) e h) node later lt)
      (λ r c. rw c.0 (delete_list-Held f n t0 ps node.l.next r.1 later c.1 lt)))

-- direntry_delete_list of the first child of a directory ends, however many children there are, and
-- gives back the one reference that direntry_get_first_child took: every count and link is as before,
-- those of the siblings too. The counts have room for one reference more.
pub direntry_delete_list-Held :
    (n de : ℕ) (ps : List ℕ) (t : Tree)
    → Directory n t de ps
    → 1 < n
    → Returns
        (Held (λ x. 0) t)
        (do (first, t1) ← direntry_get_first_child de t; direntry_delete_list (length ps) first t1)
unfolding direntry_get_first_child
direntry_delete_list-Held n de ps t d lt = rw (linked_lem (λ x. 0) (Held-refl t) d.node) (
    Returns-bind
      (copied_or_none (λ x. 0) n t t d.node.l.children ps (Held-refl t) d.children
        (λ x. omega arith))
      (λ r c.
        rw c.0 (
          delete_list-Held (λ x. 0) n t ps d.node.l.children r.1 d.children c.1
            (λ x. omega arith))))
