-- ===== src/Directories/Readdir.antt =====
-- The bytes that readdir of src/fuse_methods/readdir.c answers.
use native.Mathlib.Nat.{mod-eq_of_lt}
use fsfuse.Base.{
  ℕ, zero, suc, ◌-◌, ◌^◌, ◌≤◌, ◌<◌, ◌≡◌, refl, sym, ap, ◌∙◌, inl, inr, Option, none, some, List, [],
  ◌∷◌, ◌++◌, length, length-drop, take, take_all, drop, ltb, min, Bool-cases, le→leb, arith,
  Returns, returns, Returns-bind, ◌>>=◌, ok,
}
use fsfuse.Base.Bytes.{Str, chars}
use fsfuse.Base.Heap.{Heap}
use fsfuse.Direntries.{
  Tree, Indexnode, copied, direntry_get_parent, direntry_get_first_child, direntry_ensure_children,
}
use fsfuse.Direntries.Above.{Held, Held-refl, linked_lem, copied-Held}
use fsfuse.Direntries.Siblings.{Directory, more_found, copied_or_none, ensure_children_again}
use fsfuse.Directories.{Config, Stat, Libfuse, Dirbuf, add_children, reply_part, fsfuse_readdir}
use fsfuse.Directories.Listed.{
  Sized, dirents, Holding, Parent, listed, directory_entries, name_of, dirbuf_add-Holding,
  add_children-Step, add_dot_dot-Step,
}

take-min : (n size : ℕ) (l : List ℕ) → length l ≡ n → take (min n size) l ≡ take size l
take-min n size l e = elim (Bool-cases (ltb n size)) [
  | inl h ↦ rw h (take_all n l (omega (arith, e)) ∙ sym (take_all size l (ground (arith, e))))
  | inr h ↦ rw h refl
]

drop_all : (n : ℕ) (l : List ℕ) → length l ≤ n → drop n l ≡ []
drop_all zero [] h = refl
drop_all zero (x ∷ l) h = absurd (omega arith)
drop_all (suc n) [] h = refl
drop_all (suc n) (x ∷ l) h = drop_all n l (omega arith)

take_none : (n : ℕ) → take {A = ℕ} n [] ≡ []
take_none zero = refl
take_none (suc n) = refl

reply_part_lem :
    (b : Dirbuf) (size off : ℕ)
    → b.size ≡ length b.buf
    → off < 2 ^ 32
    → reply_part b size off ≡ ok (take size (drop off b.buf))
unfolding reply_part
reply_part_lem b size off e lt = elim (Bool-cases (ltb off b.size)) [
  | inl h ↦
      rw (mod-eq_of_lt lt, h, le→leb off b.size (ground arith))
        (ap ok
          (take-min (b.size - off) size (drop off b.buf) (omega (arith, e, length-drop off b.buf))))
  | inr h ↦ rw (mod-eq_of_lt lt, h, drop_all off b.buf (ground (arith, e)), take_none size) refl
]

-- What readdir leaves: its answer, and the tree as it was.
pub record Answered (t0 : Tree) (bytes : List ℕ) (r : List ℕ × Heap × Tree) : Type 0 where
  pub answer : r.0 ≡ bytes
  pub tree : Held (λ x. 0) t0 r.2

copied_parent :
    (n : ℕ) (t : Tree) (parent : Option ℕ)
    → Parent n t parent
    → 0 < n
    → Returns (λ r. (r.0 ≡ parent) × Held (more_found parent (λ x. 0)) t r.1) (copied parent t)
unfolding copied Parent more_found
copied_parent n t none above lt = returns (refl, Held-refl t)
copied_parent n t (some q) above lt = copied-Held (λ x. 0) n q t t (Held-refl t) above lt

module _ (fuse : Libfuse) (config : Config) (sized : Sized fuse) where
  empty : Holding fuse [] (record { buf = []; size = 0 })
  unfolding dirents
  empty = record { buf = refl; size = refl }

  -- The rest of the method, once the children are there to be listed.
  children-Answered :
      (n p : ℕ) (ps : List ℕ) (size off : ℕ) (h : Heap) (t0 t : Tree) (b : Dirbuf)
      (es : List (Str × Stat)) (indexnode : Indexnode)
      → (d : Directory n t0 p ps) → 2 < n
      → off < 2 ^ 32
      → Holding fuse es b
      → Held (λ x. 0) t0 t
      → Returns
          (Answered t0 (
            take size (
              drop off
                (dirents fuse 0 (es ++ listed config n t0 d.node.l.children ps d.children)))))
          (do
            (rc, h3, t3) ← direntry_ensure_children (length ps) indexnode p h t
            (first, t4) ← direntry_get_first_child p t3
            (b5, t5) ← add_children fuse config (length ps) b first t4
            part ← reply_part b5 size off
            ok (part, h3, t5))
  unfolding direntry_get_first_child
  children-Answered n p ps size off h t0 t b es indexnode d lt small x held =
      rw
        (
          ensure_children_again (λ x. 0) (length ps) indexnode h held d,
          linked_lem (λ x. 0) held d.node,
        )
        (Returns-bind
          (copied_or_none (λ x. 0) n t0 t d.node.l.children ps held d.children (λ x. omega arith))
          (λ r4 c4. rw c4.0 (
            Returns-bind
              (add_children-Step fuse config sized (λ x. 0) n t0 ps d.node.l.children r4.1 b es
                d.children c4.1 x (λ x. omega arith))
              (λ r5 s5. rw (reply_part_lem r5.0 size off s5.holding.size small) (
                returns (record {
                  answer = ap (λ l. take size (drop off l)) s5.holding.buf;
                  tree = s5.tree;
                }))))))

  -- readdir of a directory whose children were looked for ends: it answers at most the size asked
  -- for of the bytes from the offset on, of the entries of the directory itself, its parent (the root
  -- is its own) and its children in order, and leaves every count and link as it was. The offset is
  -- below 2^32, the counts have room for two references more, and libfuse asks for as much room as
  -- an entry takes.
  pub fsfuse_readdir-Answered :
      (n p : ℕ) (ps : List ℕ) (size off : ℕ) (h : Heap) (t : Tree) (indexnode : Indexnode)
      → (d : Directory n t p ps) → (above : Parent n t d.node.l.parent) → 2 < n
      → off < 2 ^ 32
      → Returns
          (Answered t (take size (drop off (dirents fuse 0 (directory_entries config d above)))))
          (fsfuse_readdir fuse config (length ps) indexnode p size off h t)
  unfolding fsfuse_readdir direntry_get_parent directory_entries name_of Parent
  fsfuse_readdir-Answered n p ps size off h t indexnode d above lt small =
      Returns-bind
        (dirbuf_add-Holding fuse config sized (λ x. 0) n p t t (record { buf = []; size = 0 })
          (some (chars ".")) [] (Held-refl t) d.node empty)
        (λ b1 x1. rw (linked_lem (λ x. 0) (Held-refl t) d.node) (
          Returns-bind (copied_parent n t d.node.l.parent above (omega arith)) (λ r1 c1. rw c1.0 (
            Returns-bind
              (add_dot_dot-Step fuse config sized (λ x. 0) n p t r1.1 b1 d.node.l.parent _ d.node
                above c1.1 x1)
              (λ r2 s2.
                children-Answered n p ps size off h t r2.1 r2.0 _ indexnode d lt small s2.holding
                  s2.tree)))))
