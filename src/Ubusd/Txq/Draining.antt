-- ===== src/Ubusd/Txq/Draining.antt =====
-- Messages that wait are sent: the socket is watched for writing as long as one waits, and a socket
-- that takes what it is offered empties the queue.
use libubus_jni.Prelude.{
  ℕ, ◌+◌, ◌≡◌, refl, ◌≤◌, Bool, true, false, List, [], ◌∷◌, ◌++◌, none, some, arith, length,
  replicate, ltb, ◌&&◌, if◌then◌else◌, Bool-cases, Option-cases, inl, inr, leb, suc, zero,
  length-append, ap, length-drop, ◌⊎◌, ◌∙◌,
}
use libubus_jni.Ubusd.Txq.{
  Packet, Conn, Outcome, room, again, broken, slot, offered, writev, taken, ref, put_last, enqueue,
  dequeue, send, flush, send_pending, hdr_size, new_conn, or_zero, as_size, get_next_connection,
}
use libubus_jni.Ubusd.Txq.Queue.{head_slot}
use libubus_jni.Ubusd.Txq.Stream.{Carries, bytes, offered-drop}
use libubus_jni.Ubusd.Txq.Sending.{wrote, wrote_whole}

-- Nothing waits, or there is an event when the socket can be written to.
abbrev pub Watched : Conn → Type 0
Watched c = (slot c c.txq_cur ≡ none) ⊎ (c.watch_write ≡ true)

put_last-watch_write : (ub : Packet) (c : Conn) → (put_last ub c).watch_write ≡ c.watch_write
unfolding put_last
put_last-watch_write ub c = ground arith

enqueue-watch_write : (ub : Packet) (c : Conn) → (enqueue ub c).watch_write ≡ c.watch_write
unfolding enqueue
enqueue-watch_write ub c = put_last-watch_write (ref ub) c

dequeue-watch_write : (c : Conn) → (dequeue c).watch_write ≡ c.watch_write
unfolding dequeue
dequeue-watch_write c = ground arith

writev-slot :
    (ub : Packet) (w : Outcome) (c : Conn)
    → slot (writev ub 0 w c).1 (writev ub 0 w c).1.txq_cur ≡ slot c c.txq_cur
unfolding writev
writev-slot ub (room n) c = refl
writev-slot ub again c = refl
writev-slot ub broken c = refl

-- The first write fails or takes a part only.
first_write-Watched :
    (ub : Packet) (w : Outcome) (c : Conn) (b : Bool)
    → slot c c.txq_cur ≡ none
    → Watched (
        if b
        then (writev ub 0 w c).1
        else enqueue ub (record (writev ub 0 w c).1 {
          txq_ofs = or_zero (writev ub 0 w c).0;
          watch_write = true;
        }))
first_write-Watched ub w c true e = inl (writev-slot ub w c ∙ e)
first_write-Watched ub w c false e = inr (enqueue-watch_write ub _)

waiting-watch_write :
    (c : Conn) {p : Packet} → slot c c.txq_cur ≡ some p → Watched c → c.watch_write ≡ true
waiting-watch_write c e (inl n) = cc
waiting-watch_write c e (inr t) = t

-- A message that waits has an event coming that sends it on: `ubus_msg_send` keeps that.
pub send-Watched : (ub : Packet) (w : Outcome) (c : Conn) → Watched c → Watched (send ub w c)
unfolding send
send-Watched ub w c v = elim (Option-cases (slot c c.txq_cur)) [
  | inl e ↦
      rw (e, send)
        (first_write-Watched ub w c
          (leb (length ub.payload + hdr_size) (as_size (writev ub 0 w c).0)) e)
  | inr (p, e) ↦ rw (e, send) (inr (enqueue-watch_write ub c ∙ waiting-watch_write c e v))
]

-- One round of the loop, for what the rounds behind it do.
round-watch_write :
    (w : Outcome) (ws : List Outcome) (p : Packet) (c : Conn)
    → ((c' : Conn) → (flush ws c').1.watch_write ≡ c'.watch_write)
    → slot c c.txq_cur ≡ some p
    → (flush (w ∷ ws) c).1.watch_write ≡ c.watch_write
unfolding flush writev
round-watch_write again ws p c rest e = rw (e, flush) refl
round-watch_write broken ws p c rest e = rw (e, flush) refl
round-watch_write (room n) ws p c rest e =
    let t = taken n (offered p c.txq_ofs) in
    let c1 = wrote t (offered p c.txq_ofs) c in
    rw (e, flush)
      (elim (Bool-cases (ltb (c.txq_ofs + t) (length p.payload + hdr_size))) [
        | inl lt ↦ rw lt refl
        | inr ge ↦ rw ge (rest (dequeue c1) ∙ dequeue-watch_write c1)
      ])

flush-watch_write : (ws : List Outcome) (c : Conn) → (flush ws c).1.watch_write ≡ c.watch_write
unfolding flush
flush-watch_write [] c = refl
flush-watch_write (w ∷ ws) c = elim (Option-cases (slot c c.txq_cur)) [
  | inl e ↦ rw (e, flush) refl
  | inr (p, e) ↦ round-watch_write w ws p c (flush-watch_write ws) e
]

flush-Watched : (ws : List Outcome) (c : Conn) → Watched c → Watched (flush ws c).1
unfolding flush
flush-Watched ws c (inr t) = inr (flush-watch_write ws c ∙ t)
flush-Watched [] c (inl e) = inl e
flush-Watched (w ∷ ws) c (inl e) = rw (e, flush) (inl e)

unwatched-slot :
    (b : Bool) (c : Conn)
    → slot
        (if b then record c { watch_write = false } else c)
        (if b then record c { watch_write = false } else c).txq_cur
      ≡ slot c c.txq_cur
unwatched-slot true c = refl
unwatched-slot false c = refl

-- The sending part of `client_cb` keeps it too, and with it a write event is asked for exactly as
-- long as something waits.
pub send_pending-Watched :
    (ws : List Outcome) (write : Bool) (c : Conn) → Watched c → Watched (send_pending ws write c).1
unfolding send_pending
send_pending-Watched ws write c v =
    elim (Option-cases (slot (flush ws c).1 (flush ws c).1.txq_cur)) [
      | inl e ↦
          rw (e, send_pending) (inl (unwatched-slot ((flush ws c).0 && write) (flush ws c).1 ∙ e))
      | inr (p, e) ↦ rw (e, send_pending) (flush-Watched ws c v)
    ]

-- Nothing waits on a connection whose HELLO went out at once.
greeted-slot :
    (hello : Packet) (n : ℕ)
    → length hello.hdr ≡ hdr_size
    → length hello.payload + hdr_size ≤ n
    → slot (get_next_connection hello (room n)) (get_next_connection hello (room n)).txq_cur ≡ none
unfolding get_next_connection send writev new_conn offered
greeted-slot hello n whole fits =
    let b = length-append hello.hdr hello.payload in
    let all : leb (length hello.payload + hdr_size) (taken n (hello.hdr ++ hello.payload)) ≡ true =
      ground (arith, b, whole, fits) in
    rw (all, get_next_connection) refl

-- The connections that a client's calls can lead to, where the socket has taken HELLO whole.
pub data Served : Conn → Type 0 where
  served_accept :
      (hello : Packet) (n : ℕ)
      → length hello.hdr ≡ hdr_size
      → length hello.payload + hdr_size ≤ n
      → Served (get_next_connection hello (room n))
  served_send : {c : Conn} (ub : Packet) (w : Outcome) → Served c → Served (send ub w c)
  served_poll :
      {c : Conn} (ws : List Outcome) (write : Bool) → Served c → Served (send_pending ws write c).1

-- On a connection that is accepted with an 8-byte header of HELLO and a socket that takes HELLO
-- whole, and then used by any calls of `ubus_msg_send` and any events of `client_cb`, with any
-- results of the socket, the socket is watched for writing whenever a message waits in the queue.
pub Served-Watched : (c : Conn) → Served c → Watched c
Served-Watched c (served_accept hello n whole fits) = inl (greeted-slot hello n whole fits)
Served-Watched c (served_send ub w r) = send-Watched ub w _ (Served-Watched _ r)
Served-Watched c (served_poll ws write r) = send_pending-Watched ws write _ (Served-Watched _ r)

-- The largest message of the queue is at most so long.
abbrev pub Fits : ℕ → List Packet → Type 0
Fits m [] = Unit
Fits m (p ∷ q) = (length p.payload + hdr_size ≤ m) × Fits m q

taken-all : (m : ℕ) (o : List ℕ) → length o ≤ m → taken m o ≡ length o
taken-all m o l = ground arith

-- Such a socket takes a whole message in one round.
whole_round :
    (m : ℕ) (p : Packet) {q : List Packet} {c : Conn} {s : List ℕ}
    → Carries (p ∷ q) c s
    → length p.payload + hdr_size ≤ m
    → c.txq_ofs + taken m (offered p c.txq_ofs) ≡ length p.payload + hdr_size
whole_round m p {c = c} v l =
    let n = ap length (offered-drop p c.txq_ofs v.sized.0) ∙ length-drop c.txq_ofs (bytes p) in
    let b = length-append p.hdr p.payload in
    rw (taken-all m (offered p c.txq_ofs) (omega (arith, n, b, v.sized.0)))
      (omega (arith, n, b, v.sized.0, v.partly))

-- On a connection whose ring holds a queue of whole messages, of which only the first may be sent
-- in part, when the socket takes all that it is offered, up to at least the largest message of the
-- queue, as many rounds of the sending loop of `client_cb` as there are messages in the queue
-- empty it without an error, and every byte of the stream has been taken.
pub flush-drains :
    (m k : ℕ) (q : List Packet) (c : Conn) (s : List ℕ)
    → Carries q c s
    → Fits m q
    → length q ≤ k
    → ((flush (replicate k (room m)) c).0 ≡ true) × Carries [] (flush (replicate k (room m)) c).1 s
unfolding flush
flush-drains m zero [] c s v f l = (refl, v)
flush-drains m (suc k) [] c s v f l = rw (head_slot v.holds, flush) (refl, v)
flush-drains m zero (p ∷ q) c s v f l = absurd (omega arith)
flush-drains m (suc k) (p ∷ q) c s v f l =
    let t = taken m (offered p c.txq_ofs) in
    rw (head_slot v.holds, flush)
      (elim (Bool-cases (ltb (c.txq_ofs + t) (length p.payload + hdr_size))) [
        | inl lt ↦ absurd (ground (arith, whole_round m p v f.0))
        | inr ge ↦ rw ge (flush-drains m k q _ s (wrote_whole v t (ground arith)) f.1 (omega arith))
      ])
