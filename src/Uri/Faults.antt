-- ===== src/Uri/Faults.antt =====
-- uri_get and uri_get_authority of src/uri.c hand literals and the URI's own strings to
-- string_buffer_append, which frees what it is given.
use fsfuse.Base.{
  ℕ, suc, ◌<◌, ◌≡◌, refl, ap, ◌∙◌, ◌≢◌, Option, none, some, [], ◌++◌, Run, fault, ok, ◌>>=◌, arith,
  Returns, returns, Returns-bind, Returns-map, Returns-fault, Option-cases, inl, inr, ◌⊎◌,
}
use fsfuse.Base.Bytes.{Str, chars}
use fsfuse.Base.Heap.{Heap, strdup, updated_elsewhere, free_unallocated}
use fsfuse.StringBuffer.Contents.{
  Holds, string_buffer_new-Holds, string_buffer_append-Appended, string_buffer_append_literal,
  string_buffer_commit_lem,
}
use fsfuse.Uri.{
  scheme, userinfo, host, port, Uri, State, append, with_before, with_behind, alone, commit,
  uri_get, uri_get_authority, uri_delete, release_all, release, index,
}
use fsfuse.Uri.Owned.{Owned, Released, of_Freed, release-Released}

fault_first : {A B : Type 0} {m : Run A} (k : A → Run B) → m ≡ fault → (m >>= k) ≡ fault
fault_first k e = rw e refl

with_behind_faults :
    {content value : Str} (mark : Str) (p : ℕ) (s : State)
    → Holds content s.0
    → s.1.block p ≡ some value
    → with_behind mark (some p) s ≡ fault
unfolding with_behind append
with_behind_faults {content} {value} mark p s x e =
    Returns-fault (string_buffer_append-Appended content value p s.0 s.1 x e)
      (λ r a. string_buffer_append_literal (content ++ value) mark r.0 r.1 a.buffer)

with_before_faults :
    {content : Str} (mark : Str) (p : ℕ) (s : State)
    → Holds content s.0
    → with_before mark (some p) s ≡ fault
unfolding with_before append
with_before_faults {content} mark p s x =
    fault_first _ (string_buffer_append_literal content mark s.0 s.1 x)

-- What the host's append leaves.
record Alone (member : Option ℕ) (h : Heap) (r : State) : Type 0 where
  content : Str
  buffer : Holds content r.0
  released : Released member h r.1

alone-Alone :
    {content : Str} (member : Option ℕ) (s : State)
    → ((p : ℕ) → member ≡ some p → (value : Str) × (s.1.block p ≡ some value))
    → Holds content s.0
    → Returns (Alone member s.1) (alone member s)
unfolding alone append
alone-Alone {content} none s live x = returns (record {
  content = _;
  buffer = x;
  released = record { next = refl; gone = λ p e. cc; kept = λ q ne. refl };
})
alone-Alone {content} (some p) s live x =
    let l = live p refl in
    Returns-map (string_buffer_append-Appended content l.0 p s.0 s.1 x l.1)
      (λ r a. record { content = _; buffer = a.buffer; released = of_Freed p s.1 r.1 a.heap })

committed :
    {content : Str} (s : State)
    → Holds content s.0
    → Returns
        (λ r. (r.1.next ≡ suc s.1.next) × ((q : ℕ) → q < s.1.next → r.1.block q ≡ s.1.block q))
        (commit s)
unfolding commit strdup
committed {content} s x = Returns-bind (string_buffer_commit_lem content s.0 x) (λ bytes e.
    returns (refl, λ q lt. updated_elsewhere s.1.next q _ s.1.block (omega (arith, lt))))

-- The member is none, so nothing is appended.
no_before :
    (mark : Str) (member : Option ℕ) (s : State) → member ≡ none → with_before mark member s ≡ ok s
unfolding with_before
no_before mark member s e = rw e refl

no_behind :
    (mark : Str) (member : Option ℕ) (s : State) → member ≡ none → with_behind mark member s ≡ ok s
unfolding with_behind
no_behind mark member s e = rw e refl

-- What uri_get_authority leaves of the heap: the host's string is gone, a fresh one is there.
record Taken (uri : Uri) (h : Heap) (r : ℕ × Heap) : Type 0 where
  gone : (p : ℕ) → uri host ≡ some p → r.1.block p ≡ none
  kept : (q : ℕ) → q < h.next → uri host ≢ some q → r.1.block q ≡ h.block q

bare_authority :
    (uri : Uri) (h : Heap)
    → Owned uri h
    → uri userinfo ≡ none
    → uri port ≡ none
    → Returns (Taken uri h) (uri_get_authority uri h)
unfolding uri_get_authority
bare_authority uri h x eu ep = Returns-bind string_buffer_new-Holds (λ sb holds.
    rw (no_behind (chars "@") (uri userinfo) (sb, h) eu) (
      Returns-bind (alone-Alone (uri host) (sb, h) (x.live host) holds) (λ s a.
        rw (no_before (chars ":") (uri port) s ep) (
          Returns-map (committed s a.buffer) (λ r c. record {
            gone = λ p e.
                c.1 p (omega (arith, x.below host p e, a.released.next)) ∙ a.released.gone p e;
            kept = λ q lt ne. c.1 q (omega (arith, lt, a.released.next)) ∙ a.released.kept q ne;
          })))))

authority_with_userinfo :
    (uri : Uri) (h : Heap) (p : ℕ)
    → Owned uri h
    → uri userinfo ≡ some p
    → uri_get_authority uri h ≡ fault
unfolding uri_get_authority
authority_with_userinfo uri h p x e = Returns-fault string_buffer_new-Holds (λ sb holds.
    fault_first _ (
      ap (λ o. with_behind (chars "@") o (sb, h)) e
      ∙ (with_behind_faults (chars "@") p (sb, h) holds (x.live userinfo p e).1)))

authority_with_port :
    (uri : Uri) (h : Heap) (p : ℕ)
    → Owned uri h
    → uri userinfo ≡ none
    → uri port ≡ some p
    → uri_get_authority uri h ≡ fault
unfolding uri_get_authority
authority_with_port uri h p x eu ep = Returns-fault string_buffer_new-Holds (λ sb holds.
    rw (no_behind (chars "@") (uri userinfo) (sb, h) eu) (
      Returns-fault (alone-Alone (uri host) (sb, h) (x.live host) holds) (λ s a. fault_first _ (
        ap (λ o. with_before (chars ":") o s) ep ∙ (with_before_faults (chars ":") p s a.buffer)))))

authority_cases :
    (uri : Uri) (h : Heap)
    → Owned uri h
    → (uri_get_authority uri h ≡ fault) ⊎ Returns (Taken uri h) (uri_get_authority uri h)
authority_cases uri h x = elim (Option-cases (uri userinfo)) [
  | inr (p, e) ↦ inl (authority_with_userinfo uri h p x e)
  | inl eu ↦ elim (Option-cases (uri port)) [
    | inr (p, e) ↦ inl (authority_with_port uri h p x eu e)
    | inl ep ↦ inr (bare_authority uri h x eu ep)
  ]
]

-- uri_get on a URI that owns its strings is undefined, whichever members are set.
pub uri_get_faults : (uri : Uri) (h : Heap) → Owned uri h → uri_get uri h ≡ fault
unfolding uri_get append
uri_get_faults uri h x = elim (Option-cases (uri scheme)) [
  | inr (p, e) ↦ Returns-fault string_buffer_new-Holds (λ sb holds. fault_first _ (
      ap (λ o. with_behind (chars ":") o (sb, h)) e
      ∙ (with_behind_faults (chars ":") p (sb, h) holds (x.live scheme p e).1)))
  | inl e ↦ Returns-fault string_buffer_new-Holds (λ sb holds.
      rw (no_behind (chars ":") (uri scheme) (sb, h) e) (elim (authority_cases uri h x) [
        | inl d ↦ fault_first _ d
        | inr r ↦
            Returns-fault r (λ auth t.
              fault_first _ (string_buffer_append_literal [] (chars "//") sb auth.1 holds))
      ]))
]

-- The authority of a URI with a host and neither userinfo nor port comes back, but the host's
-- string is freed with it: a later uri_delete frees it again, which is undefined.
pub uri_get_authority_frees_host :
    (uri : Uri) (h : Heap) (p : ℕ)
    → Owned uri h
    → uri userinfo ≡ none
    → uri port ≡ none
    → uri host ≡ some p
    → Returns (λ r. uri_delete uri r.1 ≡ fault) (uri_get_authority uri h)
unfolding uri_delete release_all release index
uri_get_authority_frees_host uri h p x eu ep eh = Returns-map (bare_authority uri h x eu ep) (λ r t.
    Returns-fault
      (release-Released (uri scheme) r.1 (λ q e. (
        (x.live scheme q e).0,
        t.kept q (x.below scheme q e) (λ d. absurd (omega (arith, x.apart scheme host q e d)))
            ∙ (x.live scheme q e).1,
      )))
      (λ h1 s. rw eu (
        fault_first _ (
          ap (λ o. release o h1) eh
          ∙ (free_unallocated p h1 (
              s.kept p (λ e. absurd (omega (arith, x.apart scheme host p e eh))) ∙ t.gone p eh))))))
