-- ===== src/Ubusd/Txq/Sending.antt =====
-- What `ubus_msg_send` and the sending loop of `client_cb` do to the stream that a client reads.
use Prim.Native.Nat.add
use mathlib.Core.List.{append_assoc, append-nil}
use libubus_jni.Prelude.{
  take-all, ℕ, ◌+◌, ◌-◌, ◌^◌, ◌≡◌, refl, ◌<◌, ◌≤◌, Bool, true, false, List, [], ◌∷◌, ◌++◌, some, ap,
  ◌∙◌, sym, arith, length, take, drop, ltb, leb, ◌==◌, if◌then◌else◌, length-append,
  take-append-drop, drop-drop, drop-all, Bool-cases, inl, inr,
}
use libubus_jni.Ubusd.Txq.{
  Packet, Conn, Outcome, room, again, broken, slot, offered, writev, taken, ref, put_last, enqueue,
  dequeue, send, flush, backlog, hdr_size,
}
use libubus_jni.Ubusd.Txq.Queue.{
  Holds-fields, head_slot, put_last-Holds, put_last_full, dequeue-Holds,
}
use libubus_jni.Ubusd.Txq.Stream.{
  Carries, bytes, all_bytes, pending-zero, Sized-Partly, offered-drop, wire-put_last,
  put_last-Carries,
}

-- Bytes that go from the unsent part to the wire leave the stream as it is.
split_stream :
    (w b rest : List ℕ) (ofs k : ℕ)
    → (w ++ take k (drop ofs b)) ++ (drop (ofs + k) b ++ rest) ≡ w ++ (drop ofs b ++ rest)
split_stream w b rest ofs k =
    append_assoc w (take k (drop ofs b)) _
    ∙ ap (◌++◌ w) (
        sym (append_assoc (take k (drop ofs b)) (drop (ofs + k) b) rest)
        ∙ ap (λ t. t ++ rest) (rw (← drop-drop ofs k b) (take-append-drop k (drop ofs b))))

dequeue_fields :
    (c : Conn) {p : Packet}
    → slot c c.txq_cur ≡ some p
    → ((dequeue c).wire ≡ c.wire) × ((dequeue c).txq_ofs ≡ 0)
unfolding dequeue
dequeue_fields c h = rw (h, dequeue) (refl, refl)

-- The connection after one write of `k` bytes.
abbrev pub wrote : ℕ → List ℕ → Conn → Conn
wrote k o c = record c { wire = c.wire ++ take k o; txq_ofs = c.txq_ofs + k }

module _ {p : Packet} {q : List Packet} {c : Conn} {s : List ℕ} (v : Carries (p ∷ q) c s) where
  wrote_stream :
      (k : ℕ)
      → (c.wire ++ take k (offered p c.txq_ofs)) ++ (drop (c.txq_ofs + k) (bytes p) ++ all_bytes q)
        ≡ s
  wrote_stream k =
      rw (offered-drop p c.txq_ofs v.sized.0)
        (split_stream c.wire (bytes p) (all_bytes q) c.txq_ofs k ∙ v.stream)

  wrote_part :
      (k : ℕ)
      → c.txq_ofs + k < length p.payload + hdr_size
      → Carries (p ∷ q) (wrote k (offered p c.txq_ofs) c) s
  wrote_part k lt = record {
    holds = Holds-fields _ _ _ v.holds;
    sized = v.sized;
    partly = omega (arith, length-append p.hdr p.payload, v.sized.0);
    stream = wrote_stream k;
  }

  pub wrote_whole :
      (k : ℕ)
      → length p.payload + hdr_size ≤ c.txq_ofs + k
      → Carries q (dequeue (wrote k (offered p c.txq_ofs) c)) s
  wrote_whole k ge =
      let (w, o) = dequeue_fields (wrote k (offered p c.txq_ofs) c) (head_slot v.holds) in
      record {
        holds = dequeue-Holds p q (Holds-fields _ _ _ v.holds);
        sized = v.sized.1;
        partly = rw o (Sized-Partly q v.sized.1);
        stream =
            rw (w, o, pending-zero q)
              (rw
                (drop-all (c.txq_ofs + k) (bytes p)
                  (omega (arith, length-append p.hdr p.payload, v.sized.0)))
                at (wrote_stream k));
      }

-- On a connection whose ring holds a queue of whole messages, of which only the first may be sent
-- in part, and whatever the socket takes or refuses, the sending loop of `client_cb` leaves the
-- ring holding such a queue and keeps the stream: the bytes taken and those still to be sent
-- together stay the same, so that nothing is sent twice and nothing is skipped.
pub flush-Carries :
    (ws : List Outcome) (q : List Packet) (c : Conn) (s : List ℕ)
    → Carries q c s
    → (q' : List Packet) × Carries q' (flush ws c).1 s
unfolding flush
flush-Carries [] q c s v = (q, v)
flush-Carries (w ∷ ws) [] c s v = rw (head_slot v.holds, flush) ([], v)
flush-Carries (again ∷ ws) (p ∷ q) c s v = rw (head_slot v.holds, flush) (p ∷ q, v)
flush-Carries (broken ∷ ws) (p ∷ q) c s v = rw (head_slot v.holds, flush) (p ∷ q, v)
flush-Carries (room n ∷ ws) (p ∷ q) c s v =
    let k = taken n (offered p c.txq_ofs) in
    rw (head_slot v.holds, flush)
      (elim (Bool-cases (ltb (c.txq_ofs + k) (length p.payload + hdr_size))) [
        | inl lt ↦ rw lt (p ∷ q, wrote_part v k (ground arith))
        | inr ge ↦ rw ge (flush-Carries ws q _ s (wrote_whole v k (ground arith)))
      ])

-- When `ubus_msg_send` loses a message: on an error of the first write, and on a full queue.
abbrev pub is_lost : List Packet → Outcome → Bool
is_lost [] (room n) = false
is_lost [] again = true
is_lost [] broken = true
is_lost (x ∷ q) w = length (x ∷ q) == backlog

-- The first write on an empty queue.
module _ {c : Conn} {s : List ℕ} (ub : Packet) (hs : length ub.hdr ≡ hdr_size)
    (v : Carries [] c s) where
  first_whole :
      (k : ℕ)
      → length ub.payload + hdr_size ≤ k
      → Carries [] (record c { wire = c.wire ++ take k (offered ub 0) }) (s ++ bytes ub)
  first_whole k ge = record {
    holds = Holds-fields _ c.txq_ofs c.watch_write v.holds;
    sized = tt;
    partly = tt;
    stream =
        rw (offered-drop ub 0 hs, append-nil, ← v.stream, append-nil)
          (ap (◌++◌ c.wire)
            (take-all k (bytes ub) (omega (arith, hs, length-append ub.hdr ub.payload))));
  }

  first_part :
      (k : ℕ)
      → k < length ub.payload + hdr_size
      → Carries
          (ub ∷ [])
          (put_last ub
            (record c { wire = c.wire ++ take k (offered ub 0); txq_ofs = k; watch_write = true }))
          (s ++ bytes ub)
  first_part k lt =
      let (w, o) =
        wire-put_last ub
          (record c { wire = c.wire ++ take k (offered ub 0); txq_ofs = k; watch_write = true }) in
      record {
        holds = put_last-Holds (Holds-fields _ _ _ v.holds) ub (omega arith);
        sized = (hs, tt);
        partly = rw o (omega (arith, hs, length-append ub.hdr ub.payload));
        stream =
            rw (w, o, offered-drop ub 0 hs, ← v.stream, append-nil c.wire)
              (rw add.zero at (split_stream c.wire (bytes ub) [] 0 k)
                ∙ ap (◌++◌ c.wire) (append-nil (bytes ub)));
      }

fits : {n : ℕ} → n < 2 ^ 64 → leb n (2 ^ 64 - 1) ≡ true
fits h = ground arith

pub enqueue_own : (ub : Packet) → ub.shared ≡ false → (c : Conn) → enqueue ub c ≡ put_last ub c
unfolding enqueue ref
enqueue_own ub own c = rw own refl

-- On a connection whose ring holds a queue of whole messages, of which only the first may be sent
-- in part, `ubus_msg_send` of a message that is not in the shared buffer, has an 8-byte header and
-- fewer than 2^64 bytes adds the whole message to the end of the stream of bytes taken and to be
-- taken by the socket, or, exactly when the queue is empty and the first write fails or the queue
-- is full, loses it and leaves the stream as it is.
pub send-Carries :
    (ub : Packet) (w : Outcome) (q : List Packet) (c : Conn) (s : List ℕ)
    → ub.shared ≡ false
    → length ub.hdr ≡ hdr_size
    → length ub.payload + hdr_size < 2 ^ 64
    → Carries q c s
    → (q' : List Packet) × Carries q' (send ub w c) (s ++ (if is_lost q w then [] else bytes ub))
unfolding send writev
send-Carries ub (room n) [] c s own hs few v =
    let k = taken n (offered ub 0) in
    rw (head_slot v.holds, send)
      (elim (Bool-cases (leb (length ub.payload + hdr_size) k)) [
        | inl ge ↦ rw ge ([], first_whole ub hs v k (ground arith))
        | inr lt ↦ rw (lt, enqueue_own ub own) (ub ∷ [], first_part ub hs v k (ground arith))
      ])
send-Carries ub again [] c s own hs few v =
    rw (head_slot v.holds, send) (rw (append-nil s, fits few) ([], v))
send-Carries ub broken [] c s own hs few v =
    rw (head_slot v.holds, send) (rw (append-nil s, fits few) ([], v))
send-Carries ub w (x ∷ q) c s own hs few v =
    rw (head_slot v.holds, send)
      (elim (Bool-cases (length (x ∷ q) == backlog)) [
        | inl full ↦
            rw (full, enqueue_own ub own, append-nil s, put_last_full v.holds ub (ground arith))
              (x ∷ q, v)
        | inr free ↦
            rw (free, enqueue_own ub own)
              ((x ∷ q) ++ (ub ∷ []), put_last-Carries ub x q hs (ground (arith, v.holds.few)) v)
      ])
