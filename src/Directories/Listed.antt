-- ===== src/Directories/Listed.antt =====
-- The entries that readdir of src/fuse_methods/readdir.c puts into its buffer.
use mathlib.Core.Path.{subst}
use mathlib.Core.List.{append_assoc, append-nil}
use fsfuse.Base.{
  ℕ, ◌+◌, ◌<◌, ◌≡◌, refl, sym, ap, ◌∙◌, Option, none, some, List, [], ◌∷◌, ◌++◌, length,
  length-append, arith, Returns, returns, Returns-bind, Run, ok,
}
use fsfuse.Base.Bytes.{Str, chars}
use fsfuse.Listing.Counts.{counted, one_more}
use fsfuse.Direntries.{Tree}
use fsfuse.Direntries.Above.{Node, Held, linked_lem, direntry_get_name_lem, deleted-Held}
use fsfuse.Direntries.Siblings.{Siblings, Directory, more_found, step-Held}
use fsfuse.Directories.{
  Config, Stat, Libfuse, Dirbuf, listing_li2stat, direntry_de2stat, entry_name, dirbuf_add,
  add_dot_dot, add_children,
}

-- The attributes of a direntry.
unfoldable pub stat_of : {n p : ℕ} {t : Tree} → Config → Node n t p → Stat
stat_of config node = record (listing_li2stat config node.roomy.li) { st_ino = node.l.inode }

-- libfuse asks for as much room as an entry takes.
abbrev pub Sized : Libfuse → Type 0
Sized fuse =
    (name : Str) (st : Stat) (next : ℕ) → length (fuse.entry name st next) ≡ fuse.entry_size name

-- Entries one behind the other, from an offset on, each with the offset behind it.
unfoldable pub dirents : Libfuse → ℕ → List (Str × Stat) → List ℕ
dirents fuse offset [] = []
dirents fuse offset (e ∷ es) =
    let next = offset + fuse.entry_size e.0 in fuse.entry e.0 e.1 next ++ dirents fuse next es

-- The buffer holds these entries.
pub record Holding (fuse : Libfuse) (es : List (Str × Stat)) (b : Dirbuf) : Type 0 where
  pub buf : b.buf ≡ dirents fuse 0 es
  pub size : b.size ≡ length b.buf

unfoldable pub name_of : {n p : ℕ} {t : Tree} → Option Str → Node n t p → Str
name_of none node = node.roomy.li.name
name_of (some name) node = name

entry_name_lem :
    (f : ℕ → ℕ) {n p : ℕ} {t0 t : Tree} (name : Option Str)
    → Held f t0 t
    → (node : Node n t0 p) → entry_name name p t ≡ ok (name_of name node)
unfolding entry_name name_of
entry_name_lem f none h node = direntry_get_name_lem f h node
entry_name_lem f (some name) h node = refl

direntry_de2stat_lem :
    (f : ℕ → ℕ) {n p : ℕ} {t0 t : Tree} (config : Config)
    → Held f t0 t
    → (node : Node n t0 p) → direntry_de2stat config p t ≡ ok (stat_of config node)
unfolding direntry_de2stat stat_of listing_li2stat
direntry_de2stat_lem f {n} {p} {t0} {t} config h node =
    rw (linked_lem f h node, counted f t.fs.store h.store node.roomy) refl

behind_zero : (n : ℕ) → n ≡ 0 + n
behind_zero n = omega arith

module _ (fuse : Libfuse) (config : Config) (sized : Sized fuse) where
  dirents-append :
      (es : List (Str × Stat)) (e : Str × Stat) (offset : ℕ)
      → dirents fuse offset (es ++ (e ∷ []))
        ≡ dirents fuse offset es
          ++ fuse.entry e.0 e.1 (offset + length (dirents fuse offset es) + fuse.entry_size e.0)
  unfolding dirents
  dirents-append [] e offset = append-nil _ ∙ ap (fuse.entry e.0 e.1) (omega arith)
  dirents-append (x ∷ es) e offset =
      let next = offset + fuse.entry_size x.0 in
      ap (λ l. fuse.entry x.0 x.1 next ++ l) (dirents-append es e next)
      ∙ sym (append_assoc (fuse.entry x.0 x.1 next) (dirents fuse next es) _)
      ∙ ap (λ n. (fuse.entry x.0 x.1 next ++ dirents fuse next es) ++ fuse.entry e.0 e.1 n)
          (omega (
            arith,
            length-append (fuse.entry x.0 x.1 next) (dirents fuse next es),
            sized x.0 x.1 next,
          ))

  added-Holding :
      (es : List (Str × Stat)) (e : Str × Stat) (b : Dirbuf)
      → Holding fuse es b
      → Holding fuse (es ++ (e ∷ [])) (record {
        buf = b.buf ++ fuse.entry e.0 e.1 (b.size + fuse.entry_size e.0);
        size = b.size + fuse.entry_size e.0;
      })
  added-Holding es e b x =
      let next = b.size + fuse.entry_size e.0 in
      record {
        buf =
            ap (λ l. l ++ fuse.entry e.0 e.1 next) x.buf
            ∙ ap (λ k. dirents fuse 0 es ++ fuse.entry e.0 e.1 k)
                (ap (λ k. k + fuse.entry_size e.0)
                  (x.size ∙ ap length x.buf ∙ behind_zero (length (dirents fuse 0 es))))
            ∙ sym (dirents-append es e 0);
        size =
            omega
              (arith, x.size, sized e.0 e.1 next, length-append b.buf (fuse.entry e.0 e.1 next));
      }

  pub dirbuf_add-Holding :
      (f : ℕ → ℕ) (n p : ℕ) (t0 t : Tree) (b : Dirbuf) (name : Option Str) (es : List (Str × Stat))
      → Held f t0 t
      → (node : Node n t0 p) → Holding fuse es b
      → Returns
          (Holding fuse (es ++ ((name_of name node, stat_of config node) ∷ [])))
          (dirbuf_add fuse config b p name t)
  unfolding dirbuf_add
  dirbuf_add-Holding f n p t0 t b name es h node x =
      rw (entry_name_lem f name h node, direntry_de2stat_lem f config h node)
        (returns (added-Holding es (name_of name node, stat_of config node) b x))

-- The names and attributes of siblings.
unfoldable pub listed :
    Config
    → (n : ℕ) (t : Tree) (first : Option ℕ) (ps : List ℕ) → Siblings n t first ps
    → List (Str × Stat)
unfolding Siblings
listed config n t first [] s = []
listed config n t first (p ∷ ps) (e, (node, later)) =
    (node.roomy.li.name, stat_of config node) ∷ listed config n t node.l.next ps later

-- The parent of a direntry is NULL or allocated.
unfoldable pub Parent : ℕ → Tree → Option ℕ → Type 0
Parent n t none = Unit
Parent n t (some q) = Node n t q

-- The root is its own parent.
pub parent_stat :
    {n p : ℕ} {t : Tree} → Config → Node n t p → (parent : Option ℕ) → Parent n t parent → Stat
unfolding Parent
parent_stat config node none above = stat_of config node
parent_stat config node (some q) above = stat_of config above

-- What readdir lists of a directory.
unfoldable pub directory_entries :
    {n p : ℕ} {ps : List ℕ} {t : Tree}
    → Config
    → (d : Directory n t p ps) → Parent n t d.node.l.parent
    → List (Str × Stat)
directory_entries {n} {p} {ps} {t} config d above =
    (chars ".", stat_of config d.node)
    ∷ (chars "..", parent_stat config d.node d.node.l.parent above)
    ∷ listed config n t d.node.l.children ps d.children

-- What a step of readdir leaves.
pub record Step (fuse : Libfuse) (f : ℕ → ℕ) (t0 : Tree) (es : List (Str × Stat))
    (r : Dirbuf × Tree) : Type 0 where
  pub holding : Holding fuse es r.0
  pub tree : Held f t0 r.1

module _ (fuse : Libfuse) (config : Config) (sized : Sized fuse) where
  Step-of_same :
      (f : ℕ → ℕ) (t0 : Tree) (es es' : List (Str × Stat)) (m : Run (Dirbuf × Tree))
      → es ≡ es'
      → Returns (Step fuse f t0 es) m
      → Returns (Step fuse f t0 es') m
  Step-of_same f t0 es es' m e r = subst (λ l. Returns (Step fuse f t0 l) m) e r

  pub add_children-Step :
      (f : ℕ → ℕ) (n : ℕ) (t0 : Tree) (ps : List ℕ) (first : Option ℕ) (t : Tree) (b : Dirbuf)
      (es : List (Str × Stat))
      → (s : Siblings n t0 first ps) → Held (more_found first f) t0 t
      → Holding fuse es b
      → ((x : ℕ) → f x + 1 < n)
      → Returns
          (Step fuse f t0 (es ++ listed config n t0 first ps s))
          (add_children fuse config (length ps) b first t)
  unfolding add_children Siblings more_found listed name_of
  add_children-Step f n t0 [] first t b es s h x lt = rw s (
      returns (record {
        holding = subst (λ l. Holding fuse l b) (sym (append-nil es)) x;
        tree = subst (λ o. Held (more_found o f) t0 t) s h;
      }))
  add_children-Step f n t0 (p ∷ ps) first t b es (e, (node, later)) h x lt =
      let held = subst (λ o. Held (more_found o f) t0 t) e h in
      let here : Str × Stat = (node.roomy.li.name, stat_of config node) in
      rw e (
        Returns-bind
          (dirbuf_add-Holding fuse config sized (one_more p f) n p t0 t b none es held node x)
          (λ b' x'. Returns-bind (step-Held f n p t0 t ps held node later lt) (λ r c. rw c.0 (
            Step-of_same f t0 _ _ (add_children fuse config (length ps) b' node.l.next r.1)
              (append_assoc es (here ∷ []) (listed config n t0 node.l.next ps later))
              (add_children-Step f n t0 ps node.l.next r.1 b' (es ++ (here ∷ [])) later c.1 x'
                lt)))))

  pub add_dot_dot-Step :
      (f : ℕ → ℕ) (n p : ℕ) (t0 t : Tree) (b : Dirbuf) (parent : Option ℕ) (es : List (Str × Stat))
      → (node : Node n t0 p) → (above : Parent n t0 parent) → Held (more_found parent f) t0 t
      → Holding fuse es b
      → Returns
          (Step fuse f t0 (es ++ ((chars "..", parent_stat config node parent above) ∷ [])))
          (add_dot_dot fuse config b p parent t)
  unfolding add_dot_dot Parent parent_stat name_of more_found
  add_dot_dot-Step f n p t0 t b none es node above h x =
      Returns-bind
        (dirbuf_add-Holding fuse config sized f n p t0 t b (some (chars "..")) es h node x)
        (λ b' x'. returns (record { holding = x'; tree = h }))
  add_dot_dot-Step f n p t0 t b (some q) es node above h x =
      Returns-bind
        (dirbuf_add-Holding fuse config sized (one_more q f) n q t0 t b (some (chars "..")) es h
          above x)
        (λ b' x'.
          Returns-bind (deleted-Held f n q t0 t h above)
            (λ t' h'. returns (record { holding = x'; tree = h' })))
