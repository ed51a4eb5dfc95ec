-- ===== src/Indexnodes/Unique.antt =====
-- advertised of src/indexnodes/indexnodes.c keeps one node to an id.
use fsfuse.Base.{
  ℕ, ◌≡◌, refl, sym, ap, ◌∙◌, inl, inr, true, false, Bool-cases, Option, none, some, List, [], ◌∷◌,
  Run, ok, none-ne-some, Returns, returns, Returns-bind, Returns-map,
}
use fsfuse.Base.Bytes.{Str, some_text, str_eq, str_eq_refl}
use fsfuse.Versions.Accepts.{check_version-Accepted}
use fsfuse.Indexnodes.{
  Indexnode, indexnodes_list_add, indexnodes_list_find, seen, init_if_supported, indexnode_new,
  with_new, advertised,
}

-- No two nodes have one id.
unfoldable pub Unique : List Indexnode → Type 0
Unique [] = Unit
Unique (node ∷ nodes) = (indexnodes_list_find (node.id) nodes ≡ none) × Unique nodes

-- The node of an id was seen at a time.
pub SeenAt : ℕ → Str → List Indexnode → Type 0
SeenAt now id nodes =
    (node : Indexnode) × (indexnodes_list_find id nodes ≡ some node) × (node.last_seen ≡ now)

find_head :
    (id : Str) (node : Indexnode) (nodes : List Indexnode)
    → str_eq node.id id ≡ true
    → indexnodes_list_find id (node ∷ nodes) ≡ some node
unfolding indexnodes_list_find
find_head id node nodes e = rw e refl

find_tail :
    (id : Str) (node : Indexnode) (nodes : List Indexnode)
    → str_eq node.id id ≡ false
    → indexnodes_list_find id (node ∷ nodes) ≡ indexnodes_list_find id nodes
unfolding indexnodes_list_find
find_tail id node nodes e = rw e refl

seen_absent :
    (now : ℕ) (id k : Str) (nodes : List Indexnode)
    → indexnodes_list_find k nodes ≡ none
    → indexnodes_list_find k (seen now id nodes) ≡ none
unfolding seen
seen_absent now id k [] e = e
seen_absent now id k (node ∷ nodes) e = elim (Bool-cases (str_eq node.id k)) [
  | inl same ↦ absurd (none-ne-some _ (sym e ∙ find_head k node nodes same))
  | inr other ↦ elim (Bool-cases (str_eq node.id id)) [
    | inl here ↦ rw here (
        find_tail k (record node { last_seen = now }) nodes other
        ∙ sym (find_tail k node nodes other)
        ∙ e)
    | inr differs ↦ rw differs (
        find_tail k node (seen now id nodes) other
        ∙ seen_absent now id k nodes (sym (find_tail k node nodes other) ∙ e))
  ]
]

seen-Unique :
    (now : ℕ) (id : Str) (nodes : List Indexnode) → Unique nodes → Unique (seen now id nodes)
unfolding seen Unique
seen-Unique now id [] u = tt
seen-Unique now id (node ∷ nodes) u = elim (Bool-cases (str_eq node.id id)) [
  | inl here ↦ rw here u
  | inr differs ↦ rw differs (seen_absent now id node.id nodes u.0, seen-Unique now id nodes u.1)
]

seen-SeenAt :
    (now : ℕ) (id : Str) (nodes : List Indexnode) {found : Indexnode}
    → indexnodes_list_find id nodes ≡ some found
    → SeenAt now id (seen now id nodes)
unfolding seen SeenAt indexnodes_list_find
seen-SeenAt now id [] e = absurd (none-ne-some _ e)
seen-SeenAt now id (node ∷ nodes) e = elim (Bool-cases (str_eq node.id id)) [
  | inl here ↦ rw here (
    record node { last_seen = now },
    find_head id (record node { last_seen = now }) nodes here,
    refl,
  )
  | inr differs ↦ rw differs (
      let r = seen-SeenAt now id nodes (sym (find_tail id node nodes differs) ∙ e) in
      (r.0, find_tail id node (seen now id nodes) differs ∙ r.1, r.2))
]

new_node : ℕ → Str → Str → Str → Str → Indexnode
new_node now host port version id = record {
  host = host;
  port = port;
  version = version;
  id = id;
  last_seen = now;
}

new-Unique :
    (now : ℕ) (host port version id : Str) (nodes : List Indexnode)
    → indexnodes_list_find id nodes ≡ none
    → Unique nodes
    → Unique (with_new (some (new_node now host port version id)) nodes)
      × SeenAt now id (with_new (some (new_node now host port version id)) nodes)
unfolding with_new indexnodes_list_add Unique SeenAt new_node
new-Unique now host port version id nodes e u =
    let node = new_node now host port version id in
    ((e, u), (node, find_head id node nodes (str_eq_refl id), refl))

-- The texts that indexnode_new asserts not to be empty.
pub record Named (host port version id : Str) : Type 0 where
  pub some_host : some_text host ≡ true
  pub some_port : some_text port ≡ true
  pub some_version : some_text version ≡ true
  pub some_id : some_text id ≡ true

-- check_version takes every version.
indexnode_new_lem :
    (now : ℕ) (host port version id : Str)
    → Named host port version id
    → Returns
        (λ new_in. new_in ≡ some (new_node now host port version id))
        (indexnode_new now host port version id)
unfolding indexnode_new init_if_supported new_node
indexnode_new_lem now host port version id n =
    rw (n.some_version, n.some_id)
      (Returns-bind (check_version-Accepted version)
        (λ b e. rw (e, n.some_host, n.some_port) (returns refl)))

added_lem :
    (now : ℕ) (host port version id : Str) (nodes : List Indexnode)
    → Named host port version id
    → Returns
        (λ nodes'. nodes' ≡ with_new (some (new_node now host port version id)) nodes)
        (advertised now host port version id nodes none)
unfolding advertised
added_lem now host port version id nodes n =
    Returns-bind (indexnode_new_lem now host port version id n)
      (λ new_in e. returns (ap (λ x. with_new x nodes) e))

found_lem :
    (now : ℕ) (host port version id : Str) (nodes : List Indexnode) (found : Indexnode)
    → advertised now host port version id nodes (some found) ≡ ok (seen now id nodes)
unfolding advertised
found_lem now host port version id nodes found = refl

returned :
    {A : Type 0} {P : A → Type 0} {m : Run A} {value : A} → m ≡ ok value → P value → Returns P m
returned e p = rw e (returns p)

-- An advert with no empty text, in which the version stands, ends: one node to an id stays one node
-- to an id, and the node of the advert's id is there and was seen now.
pub advertised-Unique :
    (now : ℕ) (host port version id : Str) (nodes : List Indexnode)
    → Named host port version id
    → Unique nodes
    → Returns
        (λ nodes'. Unique nodes' × SeenAt now id nodes')
        (advertised now host port version id nodes (indexnodes_list_find id nodes))
advertised-Unique now host port version id nodes n u = by_find (indexnodes_list_find id nodes) refl
  where
    by_find :
        (found : Option Indexnode)
        → indexnodes_list_find id nodes ≡ found
        → Returns
            (λ nodes'. Unique nodes' × SeenAt now id nodes')
            (advertised now host port version id nodes found)
    by_find none e =
        Returns-map (added_lem now host port version id nodes n)
          (λ nodes' d. rw d (new-Unique now host port version id nodes e u))
    by_find (some found) e =
        returned (found_lem now host port version id nodes found)
          (seen-Unique now id nodes u, seen-SeenAt now id nodes e)
