-- ===== src/Ubusd/Txq/Shared.antt =====
-- Messages in the buffer that all messages share, which ubusd's answers are (ubus/ubusd.c,
-- `ubus_msg_ref`).
use libubus_jni.Prelude.{ℕ, ◌≡◌, ◌<◌, refl, true, false, List, [], ◌∷◌, ◌++◌, length, replicate}
use libubus_jni.Ubusd.Txq.{Packet, Conn, Outcome, ref, put_last, enqueue, send, backlog, hdr_size}
use libubus_jni.Ubusd.Txq.Queue.{head_slot}
use libubus_jni.Ubusd.Txq.Stream.{Carries, put_last-Carries}

-- The message without its header.
abbrev pub headless : Packet → Packet
headless ub = record { hdr = replicate hdr_size 0; payload = ub.payload; shared = false }

enqueue_shared :
    (ub : Packet) → ub.shared ≡ true → (c : Conn) → enqueue ub c ≡ put_last (headless ub) c
unfolding enqueue ref
enqueue_shared ub all c = rw all refl

-- On a connection whose ring holds a queue of whole messages, of which only the first may be sent
-- in part, and on which at least one message waits and there is room for another, `ubus_msg_send`
-- of a message in the shared buffer adds its attributes to the stream of bytes taken and to be
-- taken by the socket, but behind a header of eight zeros in place of its own.
pub send_shared-headless :
    (ub x : Packet) (w : Outcome) (q : List Packet) (c : Conn) (s : List ℕ)
    → ub.shared ≡ true
    → length (x ∷ q) < backlog
    → Carries (x ∷ q) c s
    → Carries ((x ∷ q) ++ (headless ub ∷ [])) (send ub w c) (s ++ (replicate 8 0 ++ ub.payload))
unfolding send
send_shared-headless ub x w q c s all few v =
    rw (head_slot v.holds, send)
      (rw (enqueue_shared ub all) (put_last-Carries (headless ub) x q refl few v))
