-- ===== src/Indexnodes/Tests.antt =====
-- Adverts of one indexnode.
use fsfuse.Base.{none, some, refl, [], ◌++◌, Returns, if◌then◌else◌, ◌==◌}
use fsfuse.Base.Bytes.{Str, chars, some_text}
use fsfuse.Base.Heap.{Heap, address, Freed}
use fsfuse.Versions.{is_space}
use fsfuse.Indexnodes.{prefix, new_indexnode_event}
use fsfuse.Indexnodes.Unique.{Unique, SeenAt}
use fsfuse.Indexnodes.Protocol.{Solid, new_indexnode_event-Unique}

abbrev holding : Str → Heap
holding s = record { next = 1; block = λ p. if p == 0 then some s else none }

version-Solid : Solid (chars "0.13")
unfolding Solid is_space
version-Solid = (refl, (refl, (refl, (refl, tt))))

new_indexnode_event-Unique_example :
    Returns
      (λ r.
        Unique r.0 × SeenAt 5 (chars "abc") r.0 × Freed 0 (holding (prefix ++ chars "0.13")) r.1)
      (new_indexnode_event 5
        (chars "10.0.0.1")
        (chars "42080")
        (address 0)
        (chars "abc")
        []
        (holding (prefix ++ chars "0.13")))
unfolding Unique some_text
new_indexnode_event-Unique_example =
    new_indexnode_event-Unique 5 (chars "10.0.0.1") (chars "42080") (chars "abc") b'0' (chars ".13")
      0 [] (holding (prefix ++ chars "0.13")) refl refl refl version-Solid refl tt
