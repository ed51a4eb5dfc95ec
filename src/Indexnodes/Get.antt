-- ===== src/Indexnodes/Get.antt =====
-- indexnodes_get of src/indexnodes/indexnodes.c gives the nodes that are still valid.
use fsfuse.Base.{ℕ, ◌≡◌, refl, ap, ◌∙◌, Bool, true, false, List, [], ◌∷◌, if◌then◌else◌}
use mathlib.Core.List.{reverse, reverse_aux, reverse-reverse}
use fsfuse.Indexnodes.{
  Indexnode, indexnodes_list_add, copy_onto, valid_onto, indexnode_still_valid,
  indexnodes_list_copy, indexnodes_list_remove_expired, indexnodes_get,
}

-- The nodes that are still valid, in order.
pub valid_nodes : ℕ → ℕ → List Indexnode → List Indexnode
valid_nodes now timeout [] = []
valid_nodes now timeout (node ∷ nodes) =
    if indexnode_still_valid now timeout node
    then node ∷ valid_nodes now timeout nodes
    else valid_nodes now timeout nodes

copy_lem : (done nodes : List Indexnode) → copy_onto done nodes ≡ reverse_aux nodes done
unfolding copy_onto indexnodes_list_add
copy_lem done [] = refl
copy_lem done (node ∷ nodes) = copy_lem (node ∷ done) nodes

valid_lem :
    (now timeout : ℕ) (done nodes : List Indexnode)
    → valid_onto now timeout done nodes ≡ reverse_aux (valid_nodes now timeout nodes) done
unfolding valid_onto valid_nodes indexnodes_list_add
valid_lem now timeout done [] = refl
valid_lem now timeout done (node ∷ nodes) =
    by_test (indexnode_still_valid now timeout node) (λ d. valid_lem now timeout d nodes)
  where
    by_test :
        (b : Bool)
        → ((d : List Indexnode)
            → valid_onto now timeout d nodes ≡ reverse_aux (valid_nodes now timeout nodes) d)
        → valid_onto now timeout (if b then node ∷ done else done) nodes
          ≡ reverse_aux
              (if b then node ∷ valid_nodes now timeout nodes else valid_nodes now timeout nodes)
              done
    by_test true rest = rest (node ∷ done)
    by_test false rest = rest done

-- indexnodes_get gives exactly the nodes that are still valid, in the order of the list, and leaves
-- them on the list in the opposite order.
pub indexnodes_get_lem :
    (now timeout : ℕ) (nodes : List Indexnode)
    → indexnodes_get now timeout nodes
      ≡ (valid_nodes now timeout nodes, reverse (valid_nodes now timeout nodes))
unfolding indexnodes_get indexnodes_list_copy indexnodes_list_remove_expired
indexnodes_get_lem now timeout nodes =
    ap (λ kept. (copy_onto [] kept, kept)) (valid_lem now timeout [] nodes)
    ∙ ap (λ copied. (copied, reverse (valid_nodes now timeout nodes)))
        (copy_lem [] (reverse (valid_nodes now timeout nodes))
          ∙ reverse-reverse (valid_nodes now timeout nodes))
