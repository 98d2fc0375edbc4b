-- ===== src/Ubusd/Txq/Greeting.antt =====
-- A HELLO that the socket of an accepted client does not take whole (ubus/ubusd.c).
use libubus_jni.Prelude.{
  ℕ, ◌+◌, ◌<◌, ◌≡◌, ◌≢◌, refl, ap, ◌∙◌, arith, false, List, [], ◌∷◌, ◌++◌, none, some, length,
  length-append, take, leb, get_or-set_ne, Option-cases, inl, inr,
}
use libubus_jni.Ubusd.Txq.{
  Packet, Conn, Outcome, room, slot, offered, writev, taken, ref, put_last, enqueue, send, hdr_size,
  new_conn, get_next_connection,
}
use libubus_jni.Ubusd.Txq.Stream.{bytes}

-- `ubus_msg_send` of several messages, each with what the socket would give.
unfoldable pub send_all : List (Packet × Outcome) → Conn → Conn
send_all [] c = c
send_all ((ub, w) ∷ us) c = send_all us (send ub w c)

-- A message waits at the head, the socket is not watched for writing, and has taken these bytes.
pub record Stuck (p : Packet) (s : List ℕ) (c : Conn) : Type 0 where
  pub waits : slot c c.txq_cur ≡ some p
  pub unwatched : c.watch_write ≡ false
  pub took : c.wire ≡ s

put_last-Stuck : (p ub : Packet) (s : List ℕ) (c : Conn) → Stuck p s c → Stuck p s (put_last ub c)
unfolding put_last
put_last-Stuck p ub s c k = elim (Option-cases (slot c c.txq_tail)) [
  | inr (x, e) ↦ rw (e, put_last) k
  | inl e ↦
      let other : c.txq_tail ≢ c.txq_cur =
        λ same. absurd (let h = ap (slot c) same ∙ k.waits in cc) in
      rw (e, put_last)
        (record {
          waits = get_or-set_ne c.tx_queue (some ub) none other ∙ k.waits;
          unwatched = k.unwatched;
          took = k.took;
        })
]

send-Stuck :
    (p ub : Packet) (w : Outcome) (s : List ℕ) (c : Conn) → Stuck p s c → Stuck p s (send ub w c)
unfolding send enqueue
send-Stuck p ub w s c k = rw (k.waits, send) (put_last-Stuck p (ref ub) s c k)

send_all-Stuck :
    (p : Packet) (us : List (Packet × Outcome)) (s : List ℕ) (c : Conn)
    → Stuck p s c
    → Stuck p s (send_all us c)
unfolding send_all
send_all-Stuck p [] s c k = k
send_all-Stuck p ((ub, w) ∷ us) s c k =
    send_all-Stuck p us s (send ub w c) (send-Stuck p ub w s c k)

greeted-Stuck :
    (hello : Packet) (n : ℕ)
    → length hello.hdr ≡ hdr_size
    → n < length hello.payload + hdr_size
    → Stuck (ref hello) (take n (bytes hello)) (get_next_connection hello (room n))
unfolding get_next_connection send writev new_conn offered enqueue put_last
greeted-Stuck hello n whole part =
    let b = length-append hello.hdr hello.payload in
    let short : taken n (hello.hdr ++ hello.payload) ≡ n = ground (arith, b, whole, part) in
    let rest : leb (length hello.payload + hdr_size) n ≡ false = ground (arith, part) in
    rw (short, rest, get_next_connection) (record { waits = refl; unwatched = refl; took = refl })

-- When the socket of an accepted client takes only a part of a HELLO with an 8-byte header, the
-- bytes that it has taken stay the only ones whatever messages `ubus_msg_send` is given for the
-- client: HELLO waits at the head of the queue, and the socket is not watched for writing.
pub get_next_connection-Stuck :
    (hello : Packet) (n : ℕ) (us : List (Packet × Outcome))
    → length hello.hdr ≡ hdr_size
    → n < length hello.payload + hdr_size
    → Stuck (ref hello) (take n (bytes hello)) (send_all us (get_next_connection hello (room n)))
get_next_connection-Stuck hello n us whole part =
    send_all-Stuck (ref hello) us (take n (bytes hello)) (get_next_connection hello (room n))
      (greeted-Stuck hello n whole part)
