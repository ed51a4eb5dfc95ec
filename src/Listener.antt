-- ===== src/Listener.antt =====
-- receive_advert and the event loop of src/indexnodes/indexnodes_listener_thread.c, with the packets
-- handed to new_indexnode_event of src/indexnodes/indexnodes.c.
pub mod Loop
mod Tests
use fsfuse.Base.{
  ℕ, Bool, true, false, Option, none, some, List, [], ◌∷◌, leb, Run, fault, out_of_fuel, ok, ◌>>=◌,
  ◌>>◌, check,
}
use fsfuse.Base.Bytes.{Str}
use fsfuse.Base.Heap.{Heap, address, strdup}
use fsfuse.Advert.{Advert, parse_advert_packet}
use fsfuse.Indexnodes.{Indexnode, new_indexnode_event}

-- What recvfrom gives: -1, or the length of the packet, whether it sets the length of the address that
-- is expected, the bytes up to a NUL, and what inet_ntop makes of the address, none for NULL.
pub data Datagram : Type 0 where
  recv_failed : Datagram
  received : ℕ → Bool → Str → Option Str → Datagram

-- The list of indexnodes, and the strings beside it.
pub record Listening : Type 0 where
  pub nodes : List Indexnode
  pub heap : Heap

-- The callback, with the protocol string that parse_advert_packet allocated.
packet_received : ℕ → Str → Advert → Listening → Run Listening
packet_received now host a s =
    let (p, h) = strdup a.fs2protocol s.heap in
    do
      (nodes, h') ← new_indexnode_event now host a.port (address p) a.id s.nodes h
      ok (record { nodes = nodes; heap = h' })

handed_on : ℕ → Option Str → Option Advert → Listening → Run Listening
unfolding packet_received
handed_on now host none s = ok s
handed_on now none (some a) s = ok s
handed_on now (some host) (some a) s = packet_received now host a s

pub receive_advert : ℕ → Datagram → Listening → Run Listening
unfolding handed_on
receive_advert now recv_failed s = ok s
receive_advert now (received recv_rc expected_len buf host) s =
    check (leb recv_rc 1023)
    >> (check expected_len >> (do a ← parse_advert_packet buf; handed_on now host a s))

-- What select gives: -1, 0, or the packets of the two sockets that are set, and whether the message on
-- the control pipe, where there is one, is the one to stop.
pub data Selected : Type 0 where
  select_failed timed_out : Selected
  ready : Option Datagram → Option Datagram → Option Bool → Selected

receive_if_set : ℕ → Option Datagram → Listening → Run Listening
unfolding receive_advert
receive_if_set now none s = ok s
receive_if_set now (some packet) s = receive_advert now packet s

-- `on` is the rest of the loop.
after_control : Option Bool → Run Listening → Listening → Run Listening
after_control none on s = on
after_control (some stop) on s = check stop >> ok s

-- The calls of select, with the time of each.
pub listener_thread_event_loop : List (ℕ × Selected) → Listening → Run Listening
unfolding receive_if_set after_control
listener_thread_event_loop [] s = out_of_fuel
listener_thread_event_loop ((now, select_failed) ∷ later) s = listener_thread_event_loop later s
listener_thread_event_loop ((now, timed_out) ∷ later) s = fault
listener_thread_event_loop ((now, ready packet4 packet6 control) ∷ later) s = do
  s1 ← receive_if_set now packet4 s
  s2 ← receive_if_set now packet6 s1
  after_control control (listener_thread_event_loop later s2) s2
