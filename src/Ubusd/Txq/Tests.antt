-- ===== src/Ubusd/Txq/Tests.antt =====
-- The theorems about the sending of messages at concrete inputs.
use libubus_jni.Prelude.{
  replicate, ◌≡◌, ◌++◌, ◌>>=◌, refl, true, false, List, [], ◌∷◌, none, some, arith,
}
use libubus_jni.Libubox.Tree.{id_ord, string_ord}
use libubus_jni.Ubusd.Txq.{
  ref, Packet, room, again, new_conn, Conn, put_last, send, flush, get_next_connection,
}
use libubus_jni.Ubusd.Txq.Greeting.{Stuck, send_all, get_next_connection-Stuck}
use libubus_jni.Ubusd.Txq.Queue.{Holds, new_conn-Holds, put_last-Holds}
use libubus_jni.Ubusd.Txq.Refined.{put, take_first, ring_heads, ring-refines_queue}
use libubus_jni.Ubusd.Txq.Stream.{Carries, bytes}
use libubus_jni.Ubusd.Txq.Sending.{send-Carries, flush-Carries}
use libubus_jni.Ubusd.Txq.Shared.{headless, send_shared-headless}
use libubus_jni.Ubusd.Disconnect.{handle_client_disconnect, handle_client_disconnect-freed}
use libubus_jni.Ubusd.Proto.Client.{free_client}
use libubus_jni.Ubusd.Samples.{demo}
use libubus_jni.Ubusd.Txq.Draining.{
  Watched, served_accept, served_send, Served-Watched, flush-drains,
}

abbrev hello_packet : Packet
hello_packet = record {
  hdr = 0 ∷ 0 ∷ 0 ∷ 0 ∷ 0 ∷ 0 ∷ 0 ∷ 5 ∷ [];
  payload = 1 ∷ 2 ∷ [];
  shared = false;
}

abbrev started_packet : Packet
started_packet = record {
  hdr = 0 ∷ 1 ∷ 0 ∷ 1 ∷ 0 ∷ 0 ∷ 0 ∷ 5 ∷ [];
  payload = 3 ∷ 4 ∷ [];
  shared = true;
}

new_conn-Carries : Carries [] new_conn []
unfolding new_conn
new_conn-Carries = record { holds = new_conn-Holds; sized = tt; partly = tt; stream = refl }

send-Carries_example :
    (q : List Packet) × Carries q (send hello_packet (room 3) new_conn) (bytes hello_packet)
send-Carries_example =
    send-Carries hello_packet (room 3) [] new_conn [] refl refl (omega arith) new_conn-Carries

-- The head of a message is in the socket, the rest waits.
abbrev started : Conn
started = record new_conn {
  tx_queue = some hello_packet ∷ replicate 31 none;
  txq_tail = 1;
  txq_ofs = 3;
  watch_write = true;
  wire = 0 ∷ 0 ∷ 0 ∷ [];
}

started-Holds : Holds started (hello_packet ∷ [])
unfolding new_conn put_last
started-Holds =
    let h = put_last-Holds {c = new_conn} {q = []} new_conn-Holds hello_packet (omega arith) in
    record { size = h.size; few = h.few; cur_in = h.cur_in; tail_at = h.tail_at; at = h.at }

started-Carries : Carries (hello_packet ∷ []) started (bytes hello_packet)
unfolding new_conn
started-Carries = record {
  holds = started-Holds;
  sized = (refl, tt);
  partly = omega arith;
  stream = refl;
}

flush-Carries_example :
    (q : List Packet) × Carries q (flush (room 4 ∷ again ∷ []) started).1 (bytes hello_packet)
flush-Carries_example =
    flush-Carries (room 4 ∷ again ∷ []) (hello_packet ∷ []) started (bytes hello_packet)
      started-Carries

Served-Watched_example :
    Watched (send started_packet (room 3) (get_next_connection hello_packet (room 64)))
Served-Watched_example =
    Served-Watched (send started_packet (room 3) (get_next_connection hello_packet (room 64)))
      (served_send started_packet (room 3) (served_accept hello_packet 64 refl (omega arith)))

-- HELLO is built in the shared buffer.
abbrev greeting : Packet
greeting = record hello_packet { shared = true }

get_next_connection-Stuck_example :
    Stuck
      (ref greeting)
      (0 ∷ 0 ∷ 0 ∷ [])
      (send_all ((started_packet, room 64) ∷ []) (get_next_connection greeting (room 3)))
get_next_connection-Stuck_example =
    get_next_connection-Stuck greeting 3 ((started_packet, room 64) ∷ []) refl (omega arith)

flush-drains_example :
    ((flush (replicate 32 (room 64)) started).0 ≡ true)
    × Carries [] (flush (replicate 32 (room 64)) started).1 (bytes hello_packet)
flush-drains_example =
    flush-drains 64 32 (hello_packet ∷ []) started (bytes hello_packet) started-Carries
      (omega arith, tt) (omega arith)

-- The status for request 9 of peer 5, with the message from before still waiting.
abbrev status_packet : Packet
status_packet = record { hdr = 0 ∷ 1 ∷ 0 ∷ 9 ∷ 0 ∷ 0 ∷ 0 ∷ 5 ∷ []; payload = 3 ∷ []; shared = true }

send_shared-headless_example :
    Carries
      (hello_packet ∷ headless status_packet ∷ [])
      (send status_packet again started)
      (bytes hello_packet ++ (replicate 8 0 ++ (3 ∷ [])))
send_shared-headless_example =
    send_shared-headless status_packet hello_packet again [] started (bytes hello_packet) refl
      (omega arith) started-Carries

handle_client_disconnect-freed_example :
    handle_client_disconnect 33 5 11 (some 12) started demo
    ≡ (free_client 5 demo >>= λ d1. some (hello_packet ∷ [], 12 ∷ 11 ∷ [], d1))
handle_client_disconnect-freed_example =
    handle_client_disconnect-freed 5 11 (some 12) (hello_packet ∷ []) started demo started-Holds

ring-refines_queue_example :
    ring_heads (put hello_packet ∷ take_first ∷ take_first ∷ put hello_packet ∷ []) new_conn
    ≡ some hello_packet ∷ none ∷ none ∷ some hello_packet ∷ []
unfolding ref
ring-refines_queue_example =
    ring-refines_queue (put hello_packet ∷ take_first ∷ take_first ∷ put hello_packet ∷ [])
