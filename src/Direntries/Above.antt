-- ===== src/Direntries/Above.antt =====
-- direntry_get_path of src/nativefs/direntry.c: the names from the root down.
use fsfuse.Base.{
  ℕ, suc, ◌+◌, ◌≤◌, ◌<◌, ◌≡◌, refl, none, some, List, [], ◌∷◌, ◌++◌, length, arith, Returns,
  returns, Returns-bind, Returns-map, Run, ◌>>=◌, ok,
}
use mathlib.Core.Path.{subst}
use mathlib.Core.List.{append_assoc}
use fsfuse.Base.Bytes.{Str, chars}
use fsfuse.Base.Heap.{Heap, strdup, updated_here}
use fsfuse.Listing.Counts.{
  Shifted, Shifted-refl, Roomy, one_more, counted, copy-Shifted, delete-Shifted,
}
use fsfuse.StringBuffer.{StringBuffer}
use fsfuse.StringBuffer.Contents.{
  Holds, string_buffer_new-Holds, string_buffer_append-Appended, string_buffer_commit_lem,
}
use fsfuse.Direntries.{
  Links, Tree, PathState, with_store, linked, copied, deleted, direntry_get_parent,
  direntry_get_name, append_copy, parent_path, direntry_get_path_inner, direntry_get_path,
}

-- A direntry whose count has room for `n` references more.
pub record Node (n : ℕ) (t : Tree) (p : ℕ) : Type 0 where
  pub roomy : Roomy n t.fs.store p
  pub l : Links
  pub linked : t.links p ≡ some l

-- The tree with `f` references more, and nothing else changed.
pub record Held (f : ℕ → ℕ) (t0 t : Tree) : Type 0 where
  pub store : Shifted f t0.fs.store t.fs.store
  pub links : t.links ≡ t0.links

pub Held-refl : (t : Tree) → Held (λ q. 0) t t
Held-refl t = record { store = Shifted-refl t.fs.store; links = refl }

pub linked_lem :
    (f : ℕ → ℕ) {n p : ℕ} {t0 t : Tree}
    → Held f t0 t
    → (node : Node n t0 p) → linked p t ≡ ok node.l
unfolding linked
linked_lem f {n} {p} {t0} {t} h node =
    rw (counted f t.fs.store h.store node.roomy, h.links, node.linked) refl

pub direntry_get_name_lem :
    (f : ℕ → ℕ) {n p : ℕ} {t0 t : Tree}
    → Held f t0 t
    → (node : Node n t0 p) → direntry_get_name p t ≡ ok node.roomy.li.name
unfolding direntry_get_name
direntry_get_name_lem f {n} {p} {t0} {t} h node = rw (counted f t.fs.store h.store node.roomy) refl

pub copied-Held :
    (f : ℕ → ℕ) (n p : ℕ) (t0 t : Tree)
    → Held f t0 t
    → Node n t0 p
    → f p < n
    → Returns (λ r. (r.0 ≡ some p) × Held (one_more p f) t0 r.1) (copied (some p) t)
unfolding copied with_store
copied-Held f n p t0 t h node lt =
    Returns-bind (copy-Shifted f n t0.fs.store t.fs.store p h.store node.roomy lt)
      (λ store s. returns (refl, record { store = s; links = h.links }))

pub deleted-Held :
    (f : ℕ → ℕ) (n p : ℕ) (t0 t : Tree)
    → Held (one_more p f) t0 t
    → Node n t0 p
    → Returns (Held f t0) (deleted p t)
unfolding deleted with_store
deleted-Held f n p t0 t h node =
    Returns-bind (delete-Shifted f n t0.fs.store t.fs.store p h.store node.roomy)
      (λ store s. returns (record { store = s; links = h.links }))

-- The direntry has these directories above it, the nearest first.
unfoldable pub Above : ℕ → Tree → ℕ → List ℕ → Type 0
Above n t p [] = (node : Node n t p) × (node.l.parent ≡ none)
Above n t p (q ∷ qs) = ((node : Node n t p) × (node.l.parent ≡ some q)) × Above n t q qs

-- Each name with a slash behind it, from the root down.
unfoldable pub path_text : (n : ℕ) (t : Tree) (p : ℕ) (qs : List ℕ) → Above n t p qs → Str
unfolding Above
path_text n t p [] a = a.0.roomy.li.name ++ chars "/"
path_text n t p (q ∷ qs) a = path_text n t q qs a.1 ++ (a.0.0.roomy.li.name ++ chars "/")

one_more_le : (p : ℕ) (f : ℕ → ℕ) (m : ℕ) → ((x : ℕ) → f x ≤ m) → (x : ℕ) → one_more p f x ≤ m + 1
unfolding one_more
one_more_le p f m le x = let h = le x in ground arith

append_copy-Holds :
    (content s : Str) (sb : StringBuffer) (h : Heap)
    → Holds content sb
    → Returns (λ (r : StringBuffer × Heap). Holds (content ++ s) r.0) (append_copy s sb h)
unfolding append_copy strdup
append_copy-Holds content s sb h x =
    Returns-map
      (string_buffer_append-Appended content s h.next sb (strdup s h).1 x
        (updated_here h.next (some s) h.block))
      (λ r a. a.buffer)

-- What a call leaves that puts the path of a direntry behind a text.
record Extended (f : ℕ → ℕ) (t0 : Tree) (content : Str) (r : PathState) : Type 0 where
  text : Holds content r.0
  tree : Held f t0 r.2

unfoldable pub nearest : (n : ℕ) (t : Tree) (q : ℕ) (qs : List ℕ) → Above n t q qs → Node n t q
unfolding Above
nearest n t q [] a = a.0
nearest n t q (x ∷ qs) a = a.0.0

at_text :
    {f : ℕ → ℕ} {t0 : Tree} {c d : Str} {m : Run PathState}
    → c ≡ d
    → Returns (Extended f t0 c) m
    → Returns (Extended f t0 d) m
at_text {f} {t0} {c} {d} {m} e r = subst (λ c. Returns (Extended f t0 c) m) e r

ends-Extended :
    (f : ℕ → ℕ) (n p : ℕ) (t0 t : Tree) (content : Str) (path : StringBuffer) (h : Heap)
    → (node : Node n t0 p) → Held f t0 t
    → Holds content path
    → Returns (Extended f t0 (content ++ (node.roomy.li.name ++ chars "/"))) (do
      name ← direntry_get_name p t
      (path2, h2) ← append_copy name path h
      (path3, h3) ← append_copy (chars "/") path2 h2
      ok (path3, h3, t))
ends-Extended f n p t0 t content path h node held x = rw (direntry_get_name_lem f held node) (
    Returns-bind (append_copy-Holds content node.roomy.li.name path h x) (λ r2 x2.
      Returns-bind (append_copy-Holds (content ++ node.roomy.li.name) (chars "/") r2.0 r2.1 x2)
        (λ r3 x3. returns (record {
          text = subst (λ c. Holds c r3.0) (append_assoc content node.roomy.li.name (chars "/")) x3;
          tree = held;
        }))))

parent-Extended :
    (above : ℕ → PathState → Run PathState) (f : ℕ → ℕ) (n q : ℕ) (t0 : Tree) (content : Str)
    (s : PathState)
    → Node n t0 q
    → Returns (Extended (one_more q f) t0 content) (above q s)
    → Returns (Extended f t0 content) (parent_path above (some q) s)
unfolding parent_path
parent-Extended above f n q t0 content s node extended = Returns-bind extended (λ r x.
    Returns-bind (deleted-Held f n q t0 r.2 x.tree node)
      (λ t h. returns (record { text = x.text; tree = h })))

path_inner-Extended :
    (n m : ℕ) (t0 : Tree) (qs : List ℕ) (f : ℕ → ℕ) (p : ℕ) (content : Str) (s : PathState)
    → (a : Above n t0 p qs) → ((x : ℕ) → f x ≤ m)
    → m + length qs < n
    → Extended f t0 content s
    → Returns
        (Extended f t0 (content ++ path_text n t0 p qs a))
        (direntry_get_path_inner (suc (length qs)) p s)
unfolding direntry_get_path_inner direntry_get_parent parent_path Above path_text copied
path_inner-Extended n m t0 [] f p content s a le lt x =
    rw (linked_lem f x.tree a.0, a.1) (ends-Extended f n p t0 s.2 content s.0 s.1 a.0 x.tree x.text)
path_inner-Extended n m t0 (q ∷ qs) f p content s ((node, e), up) le lt x =
    let h = le q in
    rw (linked_lem f x.tree node, e)
      (Returns-bind (copied-Held f n q t0 s.2 x.tree (nearest n t0 q qs up) (omega arith)) (λ r1 c1.
        rw c1.0 (
          Returns-bind
            (parent-Extended (direntry_get_path_inner (suc (length qs))) f n q t0 _ (s.0, s.1, r1.1)
              (nearest n t0 q qs up)
              (path_inner-Extended n (m + 1) t0 qs (one_more q f) q content (s.0, s.1, r1.1) up
                (one_more_le q f m le) (omega arith) (record { text = x.text; tree = c1.1 })))
            (λ r2 x2.
              at_text
                (append_assoc content (path_text n t0 q qs up) (node.roomy.li.name ++ chars "/"))
                (ends-Extended f n p t0 r2.2 (content ++ path_text n t0 q qs up) r2.0 r2.1 node
                  x2.tree x2.text)))))

-- What direntry_get_path leaves: the text with its NUL, and the tree as it was.
pub record PathOf (t0 : Tree) (path : Str) (r : List ℕ × Heap × Tree) : Type 0 where
  pub text : r.0 ≡ path ++ (0 ∷ [])
  pub tree : Held (λ q. 0) t0 r.2

-- Given a direntry with the directories above it, whose counts have room for one reference more to
-- each, direntry_get_path ends with the names from the root down, each with a slash behind it, and
-- leaves every count and link as it was. The fuel is one more than the number of directories.
pub direntry_get_path-PathOf :
    (n p : ℕ) (qs : List ℕ) (h : Heap) (t : Tree)
    → (a : Above n t p qs) → length qs < n
    → Returns (PathOf t (path_text n t p qs a)) (direntry_get_path (suc (length qs)) p h t)
unfolding direntry_get_path
direntry_get_path-PathOf n p qs h t a lt = Returns-bind string_buffer_new-Holds (λ path x.
    Returns-bind
      (path_inner-Extended n 0 t qs (λ q. 0) p [] (path, h, t) a (λ q. omega arith) (omega arith)
        (record { text = x; tree = Held-refl t }))
      (λ r e.
        Returns-bind (string_buffer_commit_lem _ r.0 e.text)
          (λ block b. returns (record { text = b; tree = e.tree }))))
