-- ===== src/Ubusd/Inbox/Split.antt =====
-- A header that comes in two pieces (ubus/ubusd.c).
use libubus_jni.Prelude.{
  ℕ, zero, suc, ◌+◌, ◌-◌, ◌*◌, ◌<◌, ◌≤◌, ◌≡◌, refl, arith, true, false, List, [], ◌∷◌, ◌++◌, Option,
  some, ltb, take, drop, length, ◌&&◌, not, take-all, ◌&&◌, not,
}
use libubus_jni.Ubusd.Inbox.{BlobLen, Inbox, got, out, overrun, read_header, round, hdrbuf_size}
use libubus_jni.Ubusd.Inbox.Frames.{IsIdle}

take-some : (n : ℕ) (b : List ℕ) → 0 < n → 0 < length b → 0 < length (take n b)
take-some zero b l m = absurd (omega arith)
take-some (suc n) [] l m = absurd (omega arith)
take-some (suc n) (x ∷ b) l m = omega arith

-- On a connection with no message half read a first call gives some but not all of the 12 bytes of
-- `hdrbuf`, and the next call gives more bytes: the first leaves the code waiting with the number
-- of bytes in `pending_msg_offset`, and the second writes its bytes, as many as are asked for or
-- there are and one at least, from 12 times that number on, at or behind the end of the buffer.
pub round-split :
    (B : BlobLen) (i : Inbox) (a b : List ℕ) (f g : Option ℕ)
    → IsIdle i
    → 0 < length a
    → length a < hdrbuf_size
    → 0 < length b
    → (i1 : Inbox) × (n : ℕ) × (round B (got a f) i ≡ some (out, i1))
      × (i1.pending_msg_offset ≡ length a)
      × (round B (got b g) i1 ≡ some (overrun (hdrbuf_size * length a) n, i1))
      × (n ≡ length (take (hdrbuf_size - length a) b))
      × (0 < n)
      × (hdrbuf_size ≤ hdrbuf_size * length a)
unfolding round read_header
round-split B i a b f g idle l m n =
    let header : not i.eof && ltb i.pending_msg_offset hdrbuf_size ≡ true =
      rw (idle.connected, idle.offset) refl in
    let all = take-all 12 a (omega arith) in
    let part : ltb (length a) hdrbuf_size ≡ true = ground arith in
    let sum : 0 + length a ≡ length a = omega arith in
    let inside : (ltb 0 (length a) && ltb hdrbuf_size (length a)) ≡ false = ground arith in
    let k = length (take (12 - length a) b) in
    let some_b : 0 < k = take-some (12 - length a) b (omega arith) n in
    let beyond : (ltb 0 k && ltb hdrbuf_size (12 * length a + k)) ≡ true = ground (arith, some_b) in
    let later : not i.eof && ltb (length a) hdrbuf_size ≡ true = rw (idle.connected, part) refl in
    (
      record i {
        hdrbuf = a ++ drop (length a) i.hdrbuf;
        pending_msg_offset = length a;
        pending_msg_fd = f;
      },
      k,
      rw (header, idle.offset, idle.no_fd, all, sum, inside, part, round) refl,
      refl,
      rw (later, beyond, round) refl,
      refl,
      some_b,
      omega arith,
    )
