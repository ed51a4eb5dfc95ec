-- ===== src/Direntries/Children.antt =====
-- What direntry_ensure_children and direntry_init of src/nativefs/direntry.c come to.
use mathlib.Core.List.{append-nil, append_assoc, map}
use fsfuse.Base.{
  ℕ, suc, ◌+◌, ◌%◌, ◌^◌, ◌<◌, ◌≡◌, refl, sym, ap, ◌∙◌, ◌⊎◌, ◌≢◌, inl, inr, true, false, none, some,
  List, [], ◌∷◌, ◌++◌, drop, ◌==◌, length, arith, Returns, returns, Returns-bind, Returns-map,
  Returns-fault, ◌>>=◌, ok, fault, Option-cases, Bool-cases,
}
use fsfuse.Base.Bytes.{chars, str_eq}
use fsfuse.Base.Errno.{eio}
use fsfuse.Base.Heap.{Heap}
use fsfuse.Listing.{
  Listing, Store, ListingList, put, listing_copy, ref_count_inc, listing_list_get_item, nth,
  listing_list_set_item, listing_list_resize,
}
use fsfuse.Listing.Counts.{
  Shifted, Shifted-refl, Roomy, pointers, put_here, put_elsewhere, still_there,
}
use fsfuse.Listing.Fill.{
  filled, new_filled, set_item-Shifted, resize_more, length-filled, filled-pointers,
}
use fsfuse.FuseMethods.InodeMap.{inode_map_add_uncounted}
use fsfuse.Direntries.{
  Links, Tree, with_store, linked, Entry, Indexnode, listing_type_from_string, listing_new,
  entry_found, entries_found, direntry_from_listing, direntries_from, direntries_from_listing_list,
  children_listed, look_for_children, direntry_ensure_children, direntry_new_root, direntry_init,
  root_inode, root_listing,
}
use fsfuse.Direntries.Above.{
  Held-refl, nearest, linked_lem, Above, path_text, direntry_get_path-PathOf,
}

-- On every tree, direntry_init faults: the root has no reference count, and the inode map takes a
-- reference to it.
pub direntry_init_faults : (de : ℕ) (t : Tree) → direntry_init de t ≡ fault
unfolding direntry_init direntry_new_root with_store
direntry_init_faults de t =
    rw
      (inode_map_add_uncounted root_inode de root_listing
        (with_store (put de (some root_listing) t.fs.store) t).fs
        (put_here de de (some root_listing) t.fs.store refl) refl)
      refl

-- The indexnode calls it a file or a directory.
unfoldable pub Typed : Entry → Type 0
Typed e = (e.type ≡ chars "file") ⊎ (e.type ≡ chars "directory")

unfoldable pub AllTyped : List Entry → Type 0
AllTyped [] = Unit
AllTyped (e ∷ es) = Typed e × AllTyped es

type-Returns : (e : Entry) → Typed e → Returns (λ type. Unit {0}) (listing_type_from_string e.type)
unfolding listing_type_from_string Typed str_eq
type-Returns e (inl is_file) = rw is_file (returns tt)
type-Returns e (inr is_directory) = rw is_directory (returns tt)

-- An address that is allocated.
abbrev Allocated : ℕ → Store → Type 0
Allocated p st = (li : Listing) × (st p ≡ some li)

put-Allocated :
    (p q : ℕ) (li : Listing) (st : Store) → Allocated q st → Allocated q (put p (some li) st)
put-Allocated p q li st (old, e) = elim (same q p) [
  | inl here ↦ (li, put_here p q (some li) st here)
  | inr ne ↦ (old, put_elsewhere p q (some li) st ne ∙ e)
]
  where
    same : (a b : ℕ) → (a ≡ b) ⊎ (a ≢ b)
    same a b = ground arith

Shifted-Allocated :
    (f : ℕ → ℕ) (q : ℕ) (st0 st : Store) → Shifted f st0 st → Allocated q st0 → Allocated q st
Shifted-Allocated f q st0 st s (li, e) = (_, still_there f st0 st q li s e)

-- What entry_found leaves: one item more, and all that was allocated.
record More (p : ℕ) (xs : List ℕ) (st : Store) (r : ListingList × Store) : Type 0 where
  items : r.0 ≡ filled (xs ++ (p ∷ [])) 0
  kept : (q : ℕ) → Allocated q st → Allocated q r.1

one_reference :
    (p : ℕ) (li : Listing) (st : Store) → li.ref_count ≡ 1 → Roomy 1 (put p (some li) st) p
one_reference p li st e = record {
  li = li;
  there = put_here p p (some li) st refl;
  held = omega (arith, e);
  room = omega (arith, e);
}

item-More :
    (xs : List ℕ) (p : ℕ) (li : Listing) (st : Store)
    → li.ref_count ≡ 1
    → Returns (More p xs st) (
        listing_list_set_item
          (length (filled xs 0))
          p
          (listing_list_resize (length (filled xs 0) + 1) (filled xs 0))
          (put p (some li) st))
item-More xs p li st e =
    rw (length-filled xs, resize_more xs)
      (Returns-map
        (set_item-Shifted (λ q. 0) 1 (put p (some li) st) (put p (some li) st) xs 0 p
          (Shifted-refl (put p (some li) st)) (one_reference p li st e) (omega arith))
        (λ r s. record {
          items = s.0;
          kept = λ q a. Shifted-Allocated _ q _ _ s.1 (put-Allocated p q li st a);
        }))

record NewAt (e : Entry) (st : Store) (r : ℕ × Store) : Type 0 where
  address : r.0 ≡ e.address
  li : Listing
  one : li.ref_count ≡ 1
  store : r.1 ≡ put e.address (some li) st

listing_new-NewAt : (e : Entry) (st : Store) → Typed e → Returns (NewAt e st) (listing_new e st)
unfolding listing_new
listing_new-NewAt e st typed =
    Returns-bind (type-Returns e typed)
      (λ type u. returns (record { address = refl; li = _; one = refl; store = refl }))

entry_found-More :
    (e : Entry) (xs : List ℕ) (st : Store)
    → Typed e
    → Returns (More e.address xs st) (entry_found e (filled xs 0, st))
unfolding entry_found
entry_found-More e xs st typed =
    Returns-bind (listing_new-NewAt e st typed)
      (λ r n. rw (n.address, n.store) (item-More xs e.address n.li st n.one))

-- What the calls of entry_found leave.
record AllFound (es : List Entry) (xs : List ℕ) (st : Store) (r : ListingList × Store)
    : Type 0 where
  items : r.0 ≡ filled (xs ++ map (λ e. e.address) es) 0
  kept : (q : ℕ) → Allocated q st → Allocated q r.1

entries_found-AllFound :
    (es : List Entry) (xs : List ℕ) (st : Store)
    → AllTyped es
    → Returns (AllFound es xs st) (entries_found es (filled xs 0, st))
unfolding entries_found AllTyped
entries_found-AllFound [] xs st typed =
    returns (record { items = ap (λ l. filled l 0) (sym (append-nil xs)); kept = λ q a. a })
entries_found-AllFound (e ∷ es) xs st (typed, all) =
    Returns-bind (entry_found-More e xs st typed) (λ r m. rw m.items (
      Returns-map (entries_found-AllFound es (xs ++ (e.address ∷ [])) r.1 all) (λ r' a. record {
        items = a.items ∙ ap (λ l. filled l 0) (append_assoc xs (e.address ∷ []) _);
        kept = λ q x. a.kept q (m.kept q x);
      })))

-- The children are NULL, and will not be asked for again.
pub record NoChildren (de : ℕ) (r : ℕ × Heap × Tree) : Type 0 where
  pub code : r.0 ≡ eio
  pub l : Links
  pub linked : r.2.links de ≡ some l
  pub children : l.children ≡ none
  pub looked : l.looked_for_children ≡ true

copy_cases :
    (p : ℕ) (st : Store) → (listing_copy p st ≡ fault) ⊎ ((s : Store) × (listing_copy p st ≡ ok s))
unfolding listing_copy ref_count_inc
copy_cases p st = elim (Option-cases (st p)) [
  | inl gone ↦ inl (rw gone refl)
  | inr (li, there) ↦ elim (Bool-cases (li.ref_count == 0)) [
    | inl h ↦ inl (rw (there, h) refl)
    | inr h ↦ inr (
      put p (some (record li { ref_count = (li.ref_count + 1) % 2 ^ 32 })) st,
      rw (there, h) refl,
    )
  ]
]

direntries_fault :
    (k p : ℕ) (lis : ListingList) (de : ℕ) (t : Tree)
    → direntries_from (suc k) 0 (some p ∷ lis) de none t ≡ fault
unfolding direntries_from direntry_from_listing listing_list_get_item nth
direntries_fault k p lis de t = elim (copy_cases p t.fs.store) [
  | inl e ↦ rw e refl
  | inr (s, e) ↦ rw e refl
]

children_fault :
    (rc p : ℕ) (ps : List ℕ) (de : ℕ) (t : Tree)
    → children_listed (suc rc) (filled (p ∷ ps) 0) de t ≡ fault
unfolding children_listed direntries_from_listing_list
children_fault rc p ps de t =
    rw (filled-pointers (p ∷ ps), direntries_fault (length (pointers ps)) p (pointers ps) de t) refl

module _ (n de : ℕ) (qs : List ℕ) (t : Tree) (a : Above n t de qs) (room : length qs < n)
    (unlooked : (nearest n t de qs a).l.looked_for_children ≡ false) where
  -- What the directory's path is turned into.
  unfoldable pub asked : List ℕ
  asked = drop 1 (path_text n t de qs a ++ (0 ∷ []))

  ensure_children-look :
      (indexnode : Indexnode) (h : Heap)
      → direntry_ensure_children (suc (length qs)) indexnode de h t
        ≡ look_for_children (suc (length qs)) indexnode de h t
  unfolding direntry_ensure_children
  ensure_children-look indexnode h =
      rw (linked_lem (λ q. 0) (Held-refl t) (nearest n t de qs a), unlooked) refl

  -- Where the pointer to the indexnode is NULL, as it is for the root, direntry_ensure_children faults.
  pub direntry_ensure_children_null :
      (indexnode : Indexnode) (h : Heap)
      → (nearest n t de qs a).l.has_in ≡ false
      → direntry_ensure_children (suc (length qs)) indexnode de h t ≡ fault
  unfolding look_for_children
  direntry_ensure_children_null indexnode h null = rw (ensure_children-look indexnode h) (
      Returns-fault (direntry_get_path-PathOf n de qs h t a room)
        (λ r p. rw (linked_lem (λ q. 0) p.tree (nearest n t de qs a), null) refl))

  -- When indexnode_tryget_listing fails after it found an entry, direntry_ensure_children takes that
  -- for success and faults: it clears memory far behind the direntry that it makes of the entry.
  pub direntry_ensure_children_faults :
      (rc : ℕ) (e : Entry) (es : List Entry) (indexnode : Indexnode) (h : Heap)
      → (nearest n t de qs a).l.has_in ≡ true
      → indexnode asked ≡ (suc rc, e ∷ es)
      → AllTyped (e ∷ es)
      → direntry_ensure_children (suc (length qs)) indexnode de h t ≡ fault
  unfolding look_for_children asked
  direntry_ensure_children_faults rc e es indexnode h has answer typed =
      rw (ensure_children-look indexnode h) (
        Returns-fault (direntry_get_path-PathOf n de qs h t a room) (λ r p.
          rw (p.text, linked_lem (λ q. 0) p.tree (nearest n t de qs a), has, answer, new_filled 0)
            (Returns-fault (entries_found-AllFound (e ∷ es) [] r.2.fs.store typed) (λ s f.
              rw f.items (
                rw (children_fault rc e.address (map (λ x. x.address) es) de (with_store s.1 r.2))
                  refl)))))
