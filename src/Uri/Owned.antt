-- ===== src/Uri/Owned.antt =====
-- The members of a URI of src/uri.c are its own strings: setters and uri_delete.
use fsfuse.Base.{
  ℕ, suc, ◌<◌, ◌≡◌, refl, sym, ap, ◌∙◌, ◌≢◌, ◌⊎◌, inl, inr, Option, none, some, some-injective,
  arith, Returns, returns, Returns-bind, Returns-map,
}
use fsfuse.Base.Bytes.{Str}
use fsfuse.Base.Heap.{Heap, strdup, Freed, free_allocated, updated, updated_here, updated_elsewhere}
use fsfuse.Uri.{Field, Uri, index, uri_new, release, set_member, uri_set}

-- Every member that is set points to a string of its own.
pub record Owned (uri : Uri) (h : Heap) : Type 0 where
  pub live : (f : Field) (p : ℕ) → uri f ≡ some p → (s : Str) × (h.block p ≡ some s)
  pub below : (f : Field) (p : ℕ) → uri f ≡ some p → p < h.next
  pub apart : (f g : Field) (p : ℕ) → uri f ≡ some p → uri g ≡ some p → index f ≡ index g

pub uri_new-Owned : (h : Heap) → Owned uri_new h
unfolding uri_new
uri_new-Owned h = record { live = λ f p e. cc; below = λ f p e. cc; apart = λ f g p e d. cc }

pub record Released (member : Option ℕ) (h h' : Heap) : Type 0 where
  pub next : h'.next ≡ h.next
  pub gone : (p : ℕ) → member ≡ some p → h'.block p ≡ none
  pub kept : (q : ℕ) → member ≢ some q → h'.block q ≡ h.block q

by_Freed : (p q : ℕ) (h h' : Heap) → Freed p h h' → h'.block q ≡ updated p none (h.block) q
by_Freed p q h h' x = ap (λ f. f q) x.block

pub of_Freed : (p : ℕ) (h h' : Heap) → Freed p h h' → Released (some p) h h'
of_Freed p h h' x = record {
  next = x.next;
  gone = λ q e. by_Freed p q h h' x ∙ rw (some-injective _ _ e) (updated_here q none h.block);
  kept =
      λ q ne. by_Freed p q h h' x ∙ updated_elsewhere p q none h.block (λ e. ne (ap some (sym e)));
}

pub release-Released :
    (member : Option ℕ) (h : Heap)
    → ((p : ℕ) → member ≡ some p → (s : Str) × (h.block p ≡ some s))
    → Returns (Released member h) (release member h)
unfolding release
release-Released none h live =
    returns (record { next = refl; gone = λ p e. cc; kept = λ q ne. refl })
release-Released (some p) h live = Returns-map (free_allocated p h (live p refl).1) (of_Freed p h)

-- What a setter leaves: the member has a fresh string of the value, its old string is freed, and
-- the other members and their strings are as they were.
pub record SetTo (field : Field) (value : Str) (uri : Uri) (h : Heap) (r : Uri × Heap)
    : Type 0 where
  pub owned : Owned r.0 r.1
  pub fresh : (p : ℕ) × (r.0 field ≡ some p) × (r.1.block p ≡ some value)
  pub old : (p : ℕ) → uri field ≡ some p → r.1.block p ≡ none
  pub others : (g : Field) → index g ≢ index field → r.0 g ≡ uri g
  pub strings :
      (g : Field) (p : ℕ) → index g ≢ index field → uri g ≡ some p → r.1.block p ≡ h.block p

set_here :
    (field f : Field) (p : ℕ) (uri : Uri)
    → index f ≡ index field
    → set_member field p uri f ≡ some p
unfolding set_member
set_here field f p uri e = ground arith

set_elsewhere :
    (field f : Field) (p : ℕ) (uri : Uri) → index f ≢ index field → set_member field p uri f ≡ uri f
unfolding set_member
set_elsewhere field f p uri e = ground arith

same_index : (f g : Field) → (index f ≡ index g) ⊎ (index f ≢ index g)
same_index f g = ground arith

-- The heap behind a setter.
after_set : Str → Heap → Heap
after_set value h' = record {
  next = suc (h'.next);
  block = updated (h'.next) (some value) (h'.block);
}

module _ (field : Field) (value : Str) (uri : Uri) (h h' : Heap) (x : Owned uri h)
    (r : Released (uri field) h h') where
  other_string :
      (g : Field) (p : ℕ)
      → index g ≢ index field
      → uri g ≡ some p
      → (after_set value h').block p ≡ h.block p
  unfolding after_set
  other_string g p ne e =
      updated_elsewhere h'.next p (some value) h'.block (omega (arith, x.below g p e, r.next))
      ∙ r.kept p (λ d. ne (x.apart g field p e d))

  new_live :
      (f : Field) (p : ℕ)
      → set_member field h'.next uri f ≡ some p
      → (s : Str) × ((after_set value h').block p ≡ some s)
  unfolding after_set
  new_live f p e = elim (same_index f field) [
    | inl same ↦ (
      value,
      ap (after_set value h').block
            (sym (some-injective _ _ (sym (set_here field f h'.next uri same) ∙ e)))
          ∙ updated_here h'.next (some value) h'.block,
    )
    | inr ne ↦
        let d = sym (set_elsewhere field f h'.next uri ne) ∙ e in
        ((x.live f p d).0, other_string f p ne d ∙ (x.live f p d).1)
  ]

  new_below : (f : Field) (p : ℕ) → set_member field h'.next uri f ≡ some p → p < suc h'.next
  new_below f p e = elim (same_index f field) [
    | inl same ↦ omega (arith, some-injective _ _ (sym (set_here field f h'.next uri same) ∙ e))
    | inr ne ↦ omega (arith, x.below f p (sym (set_elsewhere field f h'.next uri ne) ∙ e), r.next)
  ]

  -- A fresh address is no old member's.
  not_fresh :
      (f g : Field) (p : ℕ) {B : Type 0}
      → index f ≡ index field
      → index g ≢ index field
      → set_member field h'.next uri f ≡ some p
      → set_member field h'.next uri g ≡ some p
      → B
  not_fresh f g p same ne e d = absurd (
      omega (
        arith,
        some-injective _ _ (sym (set_here field f h'.next uri same) ∙ e),
        x.below g p (sym (set_elsewhere field g h'.next uri ne) ∙ d),
        r.next,
      ))

  new_apart :
      (f g : Field) (p : ℕ)
      → set_member field h'.next uri f ≡ some p
      → set_member field h'.next uri g ≡ some p
      → index f ≡ index g
  new_apart f g p e d = elim (same_index f field) [
    | inl fs ↦ elim (same_index g field) [
      | inl gs ↦ fs ∙ sym gs
      | inr gn ↦ not_fresh f g p fs gn e d
    ]
    | inr fn ↦ elim (same_index g field) [
      | inl gs ↦ not_fresh g f p gs fn d e
      | inr gn ↦
          x.apart f g p (sym (set_elsewhere field f h'.next uri fn) ∙ e)
            (sym (set_elsewhere field g h'.next uri gn) ∙ d)
    ]
  ]

  old_gone : (p : ℕ) → uri field ≡ some p → (after_set value h').block p ≡ none
  unfolding after_set
  old_gone p e =
      updated_elsewhere h'.next p (some value) h'.block (omega (arith, x.below field p e, r.next))
      ∙ r.gone p e

  set-SetTo : SetTo field value uri h (set_member field h'.next uri, after_set value h')
  unfolding after_set
  set-SetTo = record {
    owned = record { live = new_live; below = new_below; apart = new_apart };
    fresh = (
      h'.next,
      set_here field field h'.next uri refl,
      updated_here h'.next (some value) h'.block,
    );
    old = old_gone;
    others = λ g ne. set_elsewhere field g h'.next uri ne;
    strings = other_string;
  }

-- On a URI that owns its strings, a setter ends: the member has a fresh string of the value, its
-- old string is freed, and the other members keep theirs.
pub uri_set-SetTo :
    (field : Field) (value : Str) (uri : Uri) (h : Heap)
    → Owned uri h
    → Returns (SetTo field value uri h) (uri_set field value uri h)
unfolding uri_set strdup after_set
uri_set-SetTo field value uri h x =
    Returns-bind (release-Released (uri field) h (x.live field))
      (λ h' r. returns (set-SetTo field value uri h h' x r))
