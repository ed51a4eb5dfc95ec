-- ===== src/Uri/Delete.antt =====
-- uri_delete of src/uri.c frees every string of the URI once.
use fsfuse.Base.{
  ℕ, ◌<◌, ◌≡◌, refl, ◌∙◌, ◌≢◌, none, some, List, [], ◌∷◌, arith, Returns, returns, Returns-bind,
  Returns-map,
}
use fsfuse.Base.Bytes.{Str}
use fsfuse.Base.Heap.{Heap}
use fsfuse.Uri.{
  Field, scheme, userinfo, host, port, path, query, fragment, Uri, index, release_all, all_fields,
  uri_delete,
}
use fsfuse.Uri.Owned.{Owned, Released, release-Released}

data In (f : Field) : List Field → Type 0 where
  here : {fields : List Field} → In f (f ∷ fields)
  there : {g : Field} {fields : List Field} → In f fields → In f (g ∷ fields)

Above : ℕ → List Field → Type 0
Above i [] = Unit
Above i (f ∷ fields) = (i < index f) × Above i fields

Ascending : List Field → Type 0
Ascending [] = Unit
Ascending (f ∷ fields) = Above (index f) fields × Ascending fields

In-Above : {i : ℕ} {g : Field} (fields : List Field) → Above i fields → In g fields → i < index g
unfolding Above
In-Above [] above m = elim m [ ]
In-Above (f ∷ fields) (lt, above) here = lt
In-Above (f ∷ fields) (lt, above) (there m) = In-Above fields above m

all_fields-Ascending : Ascending all_fields
unfolding Ascending Above index
all_fields-Ascending = ground arith

In-all : (f : Field) → In f all_fields
In-all scheme = here
In-all userinfo = there here
In-all host = there (there here)
In-all port = there (there (there here))
In-all path = there (there (there (there here)))
In-all query = there (there (there (there (there here))))
In-all fragment = there (there (there (there (there (there here)))))

-- The strings of some members are freed, and no other block is.
record Gone (fields : List Field) (uri : Uri) (h h' : Heap) : Type 0 where
  gone : (f : Field) (p : ℕ) → In f fields → uri f ≡ some p → h'.block p ≡ none
  kept : (q : ℕ) → ((f : Field) → In f fields → uri f ≢ some q) → h'.block q ≡ h.block q

module _ (uri : Uri)
    (apart : (f g : Field) (p : ℕ) → uri f ≡ some p → uri g ≡ some p → index f ≡ index g) where
  other_member :
      (f g : Field) (fields : List Field) (p : ℕ)
      → Above (index f) fields
      → In g fields
      → uri g ≡ some p
      → uri f ≢ some p
  other_member f g fields p above m e d =
      absurd (omega (arith, In-Above fields above m, apart f g p d e))

  first-Gone :
      (f : Field) (fields : List Field)
      → Above (index f) fields
      → {h : Heap} (h1 h2 : Heap) → Released (uri f) h h1
      → Gone fields uri h1 h2
      → (g : Field) (p : ℕ) → In g (f ∷ fields)
      → uri g ≡ some p
      → h2.block p ≡ none
  first-Gone f fields above h1 h2 r x g p here e =
      x.kept p (λ k m d. other_member f k fields p above m d e) ∙ r.gone p e
  first-Gone f fields above h1 h2 r x g p (there m) e = x.gone g p m e

  release_all-Gone :
      (fields : List Field) (h : Heap)
      → Ascending fields
      → ((f : Field) (p : ℕ) → In f fields → uri f ≡ some p → (s : Str) × (h.block p ≡ some s))
      → Returns (Gone fields uri h) (release_all fields uri h)
  unfolding release_all Ascending
  release_all-Gone [] h a live = returns (record { gone = no_member; kept = λ q ne. refl })
    where
      no_member : (f : Field) (p : ℕ) → In f [] → uri f ≡ some p → h.block p ≡ none
      no_member f p m e = elim m [ ]
  release_all-Gone (f ∷ fields) h (above, a) live =
      Returns-bind (release-Released (uri f) h (λ p e. live f p here e)) (λ h1 r.
        Returns-map
          (release_all-Gone fields h1 a (λ g p m e.
            let l = live g p (there m) e in
            (l.0, r.kept p (other_member f g fields p above m e) ∙ l.1)))
          (λ h2 x. record {
            gone = first-Gone f fields above h1 h2 r x;
            kept = λ q ne. x.kept q (λ g m. ne g (there m)) ∙ r.kept q (ne f here);
          }))

-- uri_delete on a URI that owns its strings ends, every member's string is freed, and no other
-- string is.
pub uri_delete_frees :
    (uri : Uri) (h : Heap)
    → Owned uri h
    → Returns
        (λ h'.
          ((f : Field) (p : ℕ) → uri f ≡ some p → h'.block p ≡ none)
          × ((q : ℕ) → ((f : Field) → uri f ≢ some q) → h'.block q ≡ h.block q))
        (uri_delete uri h)
unfolding uri_delete
uri_delete_frees uri h x =
    Returns-map
      (release_all-Gone uri x.apart all_fields h all_fields-Ascending (λ f p m e. x.live f p e))
      (λ h' g. (λ f p e. g.gone f p (In-all f) e, λ q ne. g.kept q (λ f m. ne f)))
