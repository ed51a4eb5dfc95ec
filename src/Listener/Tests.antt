-- ===== src/Listener/Tests.antt =====
-- An advert of an indexnode and a packet of a client, and then the message to stop.
use fsfuse.Base.{ℕ, none, some, true, [], ◌∷◌, ◌≡◌, refl, List, arith, Returns, ok}
use fsfuse.Base.Bytes.{chars, str_eq, some_text}
use fsfuse.Versions.{is_space}
use fsfuse.Advert.{Advert, parse_advert_packet}
use fsfuse.Indexnodes.Unique.{Unique}
use fsfuse.Indexnodes.Protocol.{Solid}
use fsfuse.Listener.{
  received, Listening, Selected, select_failed, ready, listener_thread_event_loop,
}
use fsfuse.Listener.Loop.{
  Versioned, of_indexnode, of_client, fits, spelt, unspelt, set, unset, Stops, once_more, goes_on,
  stops, UniqueNodes, listener_thread_event_loop-UniqueNodes,
}

abbrev advert : Advert
advert = record { port = chars "42080"; fs2protocol = chars "fs2protocol-0.13"; id = chars "abc" }

advert_parsed : parse_advert_packet (chars "fs2protocol-0.13:42080:abc") ≡ ok (some advert)
unfolding parse_advert_packet str_eq
advert_parsed = refl

client_parsed : parse_advert_packet (chars "fs2protocol-0.13:autoindexnode:7") ≡ ok none
unfolding parse_advert_packet str_eq
client_parsed = refl

advert-Versioned : Versioned advert
unfolding Solid is_space some_text
advert-Versioned = record {
  first = b'0';
  others = chars ".13";
  protocol = refl;
  some_port = refl;
  some_id = refl;
  solid = (refl, (refl, (refl, (refl, tt))));
}

abbrev selected : List (ℕ × Selected)
selected =
    (1, select_failed)
    ∷ (
      2,
      ready (some (received 26 true (chars "fs2protocol-0.13:42080:abc") (some (chars "10.0.0.1"))))
          none none,
    )
    ∷ (
      3,
      ready none (some (received 32 true (chars "fs2protocol-0.13:autoindexnode:7") none))
          (some true),
    )
    ∷ []

selected-Stops : Stops selected
unfolding some_text
selected-Stops = once_more (
    goes_on
      (set (fits (omega arith) (of_indexnode advert advert_parsed advert-Versioned) (spelt refl)))
      unset (stops unset (set (fits (omega arith) (of_client client_parsed) unspelt))))

abbrev nothing_heard : Listening
nothing_heard = record { nodes = []; heap = record { next = 0; block = λ p. none } }

nothing_heard-UniqueNodes : UniqueNodes nothing_heard
unfolding UniqueNodes Unique
nothing_heard-UniqueNodes = tt

listener_thread_event_loop-UniqueNodes_example :
    Returns UniqueNodes (listener_thread_event_loop selected nothing_heard)
listener_thread_event_loop-UniqueNodes_example =
    listener_thread_event_loop-UniqueNodes selected nothing_heard selected-Stops
      nothing_heard-UniqueNodes
