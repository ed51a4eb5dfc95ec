-- ===== src/Listener/Loop.antt =====
-- The event loop of src/indexnodes/indexnodes_listener_thread.c keeps one node to an id.
use fsfuse.Base.{
  ℕ, ◌≤◌, ◌≡◌, ap, ◌∙◌, true, Option, none, some, List, [], ◌∷◌, ◌++◌, le→leb, ok, Returns, returns,
  Returns-bind,
}
use fsfuse.Base.Bytes.{Str, some_text}
use fsfuse.Base.Heap.{strdup, updated_here}
use fsfuse.Advert.{Advert, parse_advert_packet}
use fsfuse.Indexnodes.{prefix}
use fsfuse.Indexnodes.Unique.{Unique}
use fsfuse.Indexnodes.Protocol.{Solid, new_indexnode_event-Unique}
use fsfuse.Listener.{
  Datagram, recv_failed, received, Listening, packet_received, handed_on, receive_advert, Selected,
  select_failed, ready, receive_if_set, after_control, listener_thread_event_loop,
}

-- The port and the id are not empty, and the protocol is the prefix and a version without spaces.
pub record Versioned (a : Advert) : Type 0 where
  pub first : ℕ
  pub others : Str
  pub protocol : a.fs2protocol ≡ prefix ++ (first ∷ others)
  pub some_port : some_text a.port ≡ true
  pub some_id : some_text a.id ≡ true
  pub solid : Solid (first ∷ others)

-- The parser takes the packet for one of a client, or for an advert with such a protocol.
pub data Readable (buf : Str) : Type 0 where
  of_client : parse_advert_packet buf ≡ ok none → Readable buf
  of_indexnode : (a : Advert) → parse_advert_packet buf ≡ ok (some a) → Versioned a → Readable buf

-- What inet_ntop gives is not the empty string.
pub data Spelt : Option Str → Type 0 where
  unspelt : Spelt none
  spelt : {host : Str} → some_text host ≡ true → Spelt (some host)

-- A packet that could not be received, or one that fits and is readable.
pub data Sound : Datagram → Type 0 where
  not_received : Sound recv_failed
  fits :
      {rc : ℕ} {buf : Str} {host : Option Str}
      → rc ≤ 1023
      → Readable buf
      → Spelt host
      → Sound (received rc true buf host)

pub data SoundIfSet : Option Datagram → Type 0 where
  unset : SoundIfSet none
  set : {packet : Datagram} → Sound packet → SoundIfSet (some packet)

-- Calls of select with sound packets, up to one that has the message to stop.
pub data Stops : List (ℕ × Selected) → Type 0 where
  once_more :
      {now : ℕ} {later : List (ℕ × Selected)} → Stops later → Stops ((now, select_failed) ∷ later)
  goes_on :
      {now : ℕ} {packet4 packet6 : Option Datagram} {later : List (ℕ × Selected)}
      → SoundIfSet packet4
      → SoundIfSet packet6
      → Stops later
      → Stops ((now, ready packet4 packet6 none) ∷ later)
  stops :
      {now : ℕ} {packet4 packet6 : Option Datagram} {later : List (ℕ × Selected)}
      → SoundIfSet packet4
      → SoundIfSet packet6
      → Stops ((now, ready packet4 packet6 (some true)) ∷ later)

unfoldable pub UniqueNodes : Listening → Type 0
UniqueNodes s = Unique s.nodes

packet_received-UniqueNodes :
    (now : ℕ) (host : Str) (a : Advert) (s : Listening)
    → some_text host ≡ true
    → Versioned a
    → UniqueNodes s
    → Returns UniqueNodes (packet_received now host a s)
unfolding packet_received strdup UniqueNodes
packet_received-UniqueNodes now host a s some_host v u =
    Returns-bind
      (new_indexnode_event-Unique now host a.port a.id v.first v.others s.heap.next s.nodes
        (strdup a.fs2protocol s.heap).1 some_host v.some_port v.some_id v.solid
        (updated_here s.heap.next (some a.fs2protocol) s.heap.block ∙ ap some v.protocol) u)
      (λ r x. returns x.0)

handed_on-UniqueNodes :
    (now : ℕ) (host : Option Str) (a : Advert) (s : Listening)
    → Spelt host
    → Versioned a
    → UniqueNodes s
    → Returns UniqueNodes (handed_on now host (some a) s)
unfolding handed_on
handed_on-UniqueNodes now none a s unspelt v u = returns u
handed_on-UniqueNodes now (some host) a s (spelt h) v u =
    packet_received-UniqueNodes now host a s h v u

receive_advert-UniqueNodes :
    (now : ℕ) (packet : Datagram) (s : Listening)
    → Sound packet
    → UniqueNodes s
    → Returns UniqueNodes (receive_advert now packet s)
unfolding receive_advert handed_on
receive_advert-UniqueNodes now recv_failed s not_received u = returns u
receive_advert-UniqueNodes now (received rc _ buf host) s (fits le (of_client e) sp) u =
    rw (le→leb rc 1023 le, e) (returns u)
receive_advert-UniqueNodes now (received rc _ buf host) s (fits le (of_indexnode a e v) sp) u =
    rw (le→leb rc 1023 le, e) (handed_on-UniqueNodes now host a s sp v u)

if_set-UniqueNodes :
    (now : ℕ) (packet : Option Datagram) (s : Listening)
    → SoundIfSet packet
    → UniqueNodes s
    → Returns UniqueNodes (receive_if_set now packet s)
unfolding receive_if_set
if_set-UniqueNodes now none s unset u = returns u
if_set-UniqueNodes now (some packet) s (set sound) u =
    receive_advert-UniqueNodes now packet s sound u

-- However calls of select, with packets that are readable and fit and whose host, port and id are
-- not empty, lead up to the message to stop, the event loop ends, and one node to an id stays one
-- node to an id.
pub listener_thread_event_loop-UniqueNodes :
    (selected : List (ℕ × Selected)) (s : Listening)
    → Stops selected
    → UniqueNodes s
    → Returns UniqueNodes (listener_thread_event_loop selected s)
unfolding listener_thread_event_loop after_control
listener_thread_event_loop-UniqueNodes [] s st u = elim st [ ]
listener_thread_event_loop-UniqueNodes ((now, _) ∷ later) s (once_more st) u =
    listener_thread_event_loop-UniqueNodes later s st u
listener_thread_event_loop-UniqueNodes ((now, ready p4 p6 _) ∷ later) s (goes_on g4 g6 st) u =
    Returns-bind (if_set-UniqueNodes now p4 s g4 u) (λ s1 u1.
      Returns-bind (if_set-UniqueNodes now p6 s1 g6 u1)
        (λ s2 u2. listener_thread_event_loop-UniqueNodes later s2 st u2))
listener_thread_event_loop-UniqueNodes ((now, ready p4 p6 _) ∷ later) s (stops g4 g6) u =
    Returns-bind (if_set-UniqueNodes now p4 s g4 u)
      (λ s1 u1. Returns-bind (if_set-UniqueNodes now p6 s1 g6 u1) (λ s2 u2. returns u2))
