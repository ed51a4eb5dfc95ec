-- ===== src/PeerStats/Tests.antt =====
-- A choice between two alternatives.
use fsfuse.Base.{
  ℕ, none, some, refl, arith, List, [], ◌∷◌, length, ◌+◌, Returns, if◌then◌else◌, ◌==◌,
}
use fsfuse.Base.Bytes.{Str, chars}
use fsfuse.Listing.{Listing, Store, file}
use fsfuse.Listing.Counts.{AllRoomy, Shifted, pointers}
use fsfuse.PeerStats.{split_list, peerstats_chose_alternative}
use fsfuse.PeerStats.Split.{Parted, split_list-Parted}
use fsfuse.PeerStats.Choice.{Chosen, one_for, peerstats_chose_alternative-Chosen}

abbrev from : Str → Listing
from client = record {
  ref_count = 1;
  name = chars "a.txt";
  hash = chars "1234";
  type = file;
  size = 10;
  link_count = 1;
  href = chars "http://a/";
  client = client;
}

abbrev two_alternatives : Store
two_alternatives p =
    if p == 0 then some (from (chars "ann")) else if p == 1 then some (from (chars "bob")) else none

abbrev both : List ℕ
both = 0 ∷ 1 ∷ []

two-AllRoomy : AllRoomy (length both + 2) two_alternatives both
unfolding AllRoomy
two-AllRoomy = (
  record { li = from (chars "ann"); there = refl; held = omega arith; room = omega arith },
  (record { li = from (chars "bob"); there = refl; held = omega arith; room = omega arith }, tt),
)

split_list-Parted_example :
    Returns
      (Parted (some (chars "bob" ∷ [])) none two_alternatives both)
      (split_list (pointers both) (some (chars "bob" ∷ [])) none two_alternatives)
split_list-Parted_example =
    split_list-Parted (some (chars "bob" ∷ [])) none two_alternatives both two-AllRoomy

peerstats_chose_alternative-Chosen_example :
    Returns
      (λ r.
        Chosen (some (chars "bob" ∷ [])) none two_alternatives both r.0
        × Shifted (one_for r.0 (λ q. 0)) two_alternatives r.1)
      (peerstats_chose_alternative
        (pointers both)
        (some (chars "bob" ∷ []))
        none
        7
        two_alternatives)
peerstats_chose_alternative-Chosen_example =
    peerstats_chose_alternative-Chosen (some (chars "bob" ∷ [])) none two_alternatives both 7
      two-AllRoomy
