-- ===== src/Stats/Tests.antt =====
-- Two indexnodes that report once each, and a page with both counts.
use fsfuse.Base.{ℕ, List, none, [], ◌∷◌, ◌≡◌, refl, ok, ◌%◌, ◌^◌, arith}
use fsfuse.Stats.{fsfuse_statfs}
use fsfuse.Stats.Statfs.{one_each, total, answered, fsfuse_statfs-answered}

abbrev first : ℕ × ℕ
first = (3, 4096)

abbrev others : List (ℕ × ℕ)
others = (5, 1024) ∷ []

fsfuse_statfs-answered_example :
    fsfuse_statfs (one_each (first ∷ others))
    ≡ ok (
        answered
          (total (λ x. x.0) (first ∷ others) % 2 ^ 64)
          (total (λ x. x.1) (first ∷ others) % 2 ^ 64))
fsfuse_statfs-answered_example = fsfuse_statfs-answered first others (omega arith)

eight_files_ten_blocks :
    answered
      (total (λ x. x.0) (first ∷ others) % 2 ^ 64)
      (total (λ x. x.1) (first ∷ others) % 2 ^ 64)
    ≡ record { ctxt = none; replies = (8, 10) ∷ [] }
unfolding answered total
eight_files_ten_blocks = refl
