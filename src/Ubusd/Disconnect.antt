-- ===== src/Ubusd/Disconnect.antt =====
-- ubus/ubusd.c: `handle_client_disconnect`.
use libubus_jni.Prelude.{
  ℕ, zero, suc, ◌≡◌, ◌≤◌, refl, ap, arith, List, [], ◌∷◌, Option, none, some, length, ◌>>=◌,
}
use libubus_jni.Ubusd.State.{Daemon}
use libubus_jni.Ubusd.Proto.Client.{free_client}
use libubus_jni.Ubusd.Txq.{Packet, Conn, slot, dequeue}
use libubus_jni.Ubusd.Txq.Queue.{Holds, head_slot, dequeue-Holds}

-- Its loop, on fuel, with the messages that `ubus_msg_dequeue` frees, in this order.
unfoldable pub drop_queue : ℕ → Conn → Option (List Packet × Conn)
drop_queue zero c = none
drop_queue (suc fuel) c =
    let rest = drop_queue fuel (dequeue c) in
    elim (slot c c.txq_cur) [
      | none ↦ some ([], c)
      | some p ↦ rest >>= λ (ps, c1). some (p ∷ ps, c1)
    ]

-- The descriptors that it closes: `pending_msg_fd`, if there is one, and the socket.
abbrev pub closing : Option ℕ → ℕ → List ℕ
closing none sock = sock ∷ []
closing (some fd) sock = fd ∷ sock ∷ []

-- `handle_client_disconnect` of a client with this socket, `pending_msg_fd` and connection: the
-- messages freed, the descriptors closed, and the state.
unfoldable pub handle_client_disconnect :
    ℕ → ℕ → ℕ → Option ℕ → Conn → Daemon → Option (List Packet × List ℕ × Daemon)
handle_client_disconnect fuel cl sock pending_msg_fd c d = do
  (ps, c1) ← drop_queue fuel c
  d1 ← free_client cl d
  some (ps, closing pending_msg_fd sock, d1)

drop_queue-Holds :
    (fuel : ℕ) (q : List Packet) (c : Conn)
    → length q ≤ fuel
    → Holds c q
    → (c1 : Conn) × (drop_queue (suc fuel) c ≡ some (q, c1)) × Holds c1 []
unfolding drop_queue
drop_queue-Holds fuel [] c l h = (c, rw (head_slot h, drop_queue) refl, h)
drop_queue-Holds zero (p ∷ q) c l h = absurd (omega arith)
drop_queue-Holds (suc fuel) (p ∷ q) c l h =
    let (c1, e, k) = drop_queue-Holds fuel q (dequeue c) (omega arith) (dequeue-Holds p q h) in
    (c1, rw (head_slot h, drop_queue) (ap (λ r. r >>= λ (ps, c2). some (p ∷ ps, c2)) e), k)

-- On a connection whose ring holds a queue of messages, 33 rounds are enough for the loop of
-- `handle_client_disconnect`, which frees every message of the queue once, in order, whatever of
-- the first was sent; then it does what `ubusd_proto_free_client` does, faults included, and
-- closes the descriptor of a message not yet complete, if there is one, and the socket.
pub handle_client_disconnect-freed :
    (cl sock : ℕ) (pending_msg_fd : Option ℕ) (q : List Packet) (c : Conn) (d : Daemon)
    → Holds c q
    → handle_client_disconnect 33 cl sock pending_msg_fd c d
      ≡ (free_client cl d >>= λ d1. some (q, closing pending_msg_fd sock, d1))
unfolding handle_client_disconnect
handle_client_disconnect-freed cl sock fd q c d h =
    let (c1, e, k) = drop_queue-Holds 32 q c h.few h in rw (e, handle_client_disconnect) refl
