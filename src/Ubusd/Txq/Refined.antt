-- ===== src/Ubusd/Txq/Refined.antt =====
-- The ring of ubus/ubusd.c does what a queue with room for UBUSD_CLIENT_BACKLOG messages does.
use libubus_jni.Prelude.{
  ◌≡◌, refl, arith, List, [], ◌∷◌, ◌++◌, Option, length, ltb, drop, get_elem?, if◌then◌else◌,
  Bool-cases, inl, inr,
}
use libubus_jni.Ubusd.Txq.{Packet, Conn, slot, ref, enqueue, dequeue, new_conn, backlog}
use libubus_jni.Ubusd.Txq.Queue.{
  Holds, head_slot, put_last-Holds, put_last_full, dequeue-Holds, new_conn-Holds,
}

-- The operations on the ring.
pub data RingCall : Type 0 where
  put : Packet → RingCall
  take_first : RingCall

abbrev pub on_ring : RingCall → Conn → Conn
on_ring (put ub) c = enqueue ub c
on_ring take_first c = dequeue c

-- What each call should do: a message for which there is no room is dropped.
abbrev pub on_queue : RingCall → List Packet → List Packet
on_queue (put ub) q = if ltb (length q) backlog then q ++ (ref ub ∷ []) else q
on_queue take_first q = drop 1 q

-- What ubus_msg_head gives behind each call.
abbrev pub ring_heads : List RingCall → Conn → List (Option Packet)
ring_heads [] c = []
ring_heads (x ∷ xs) c = slot (on_ring x c) (on_ring x c).txq_cur ∷ ring_heads xs (on_ring x c)

-- The oldest message behind each call.
abbrev pub queue_heads : List RingCall → List Packet → List (Option Packet)
queue_heads [] q = []
queue_heads (x ∷ xs) q = get_elem? (on_queue x q) 0 ∷ queue_heads xs (on_queue x q)

dequeue_nothing : {c : Conn} → Holds c [] → dequeue c ≡ c
unfolding dequeue
dequeue_nothing h = rw (head_slot h, dequeue) refl

on_ring-Holds :
    (x : RingCall) (c : Conn) (q : List Packet) → Holds c q → Holds (on_ring x c) (on_queue x q)
unfolding enqueue
on_ring-Holds (put ub) c q h = elim (Bool-cases (ltb (length q) backlog)) [
  | inl y ↦ rw y (put_last-Holds h (ref ub) (ground arith))
  | inr n ↦
      let full : length q ≡ backlog = ground (arith, h.few) in
      rw (n, put_last_full h (ref ub) full) h
]
on_ring-Holds take_first c [] h = rw (dequeue_nothing h) h
on_ring-Holds take_first c (p ∷ q) h = dequeue-Holds p q h

heads_refine :
    (xs : List RingCall) (c : Conn) (q : List Packet)
    → Holds c q
    → ring_heads xs c ≡ queue_heads xs q
heads_refine [] c q h = refl
heads_refine (x ∷ xs) c q h =
    let h1 = on_ring-Holds x c q h in
    rw (head_slot h1, heads_refine xs (on_ring x c) (on_queue x q) h1) refl

-- From a new connection on, whatever calls of `ubus_msg_enqueue` and `ubus_msg_dequeue` come in
-- whatever order, `ubus_msg_head` gives behind each call what a queue with room for
-- UBUSD_CLIENT_BACKLOG messages has in front, to which each message is added in the form that
-- `ubus_msg_ref` gives it, and dropped if there is no room.
pub ring-refines_queue : (xs : List RingCall) → ring_heads xs new_conn ≡ queue_heads xs []
ring-refines_queue xs = heads_refine xs new_conn [] new_conn-Holds
