-- ===== src/Libubus/Io/Receiving/Handled.antt =====
-- Everything that is sent before the connection ends is processed (ubus/libubus-io.c).
use libubus_jni.Prelude.{
  ℕ, zero, suc, ◌+◌, ◌<◌, ◌≡◌, refl, arith, Bool, true, false, List, [], ◌∷◌, ◌++◌, Option, some,
  length, ◌==◌,
}
use libubus_jni.Ubusd.Inbox.{BlobLen}
use libubus_jni.Ubusd.Inbox.Frames.{Sent, IsMessage}
use libubus_jni.Libubus.Io.Receiving.{
  RecvOutcome, gives, again, interrupted, broken, stopped, failed, Source, given, recv_retry,
  Reader, get_next_msg, version, Message, handle_data,
}
use libubus_jni.Libubus.Io.Receiving.Pieces.{AllGive, count_gives}
use libubus_jni.Libubus.Io.Receiving.Opening.{bytes_of, NeverFails}
use libubus_jni.Libubus.Io.Receiving.Messages.{get_next_msg-ready}

abbrev pub all_bytes : List Sent → List ℕ
all_bytes [] = []
all_bytes (m ∷ ms) = bytes_of m ++ all_bytes ms

-- How many bytes these are.
abbrev pub wire_size : List Sent → ℕ
wire_size [] = 0
wire_size (m ∷ ms) = (12 + length m.body) + wire_size ms

-- Messages as ubusd sends them, of version 0.
abbrev pub AllOfVersion0 : BlobLen → List Sent → Type 0
AllOfVersion0 B [] = Unit
AllOfVersion0 B (m ∷ ms) = (IsMessage B m × (version m.hdr ≡ 0)) × AllOfVersion0 B ms

-- The messages processed are those sent, in order.
abbrev pub AreThose : List Message → List Sent → Type 0
AreThose [] [] = Unit
AreThose [] (m ∷ ms) = ⊥
AreThose (x ∷ xs) [] = ⊥
AreThose (x ∷ xs) (m ∷ ms) = ((x.hdr ≡ m.hdr) × (x.payload ≡ m.attr ++ m.body)) × AreThose xs ms

-- All of them, then the end of the connection.
pub record Handles (ms : List Sent) (r : Option (List Message × List ℕ × Bool)) : Type 0 where
  pub messages : List Message
  pub result : r ≡ some (messages, [], true)
  pub those : AreThose messages ms

recv_retry-closed :
    (xs : List RecvOutcome) (fd : Option ℕ)
    → AllGive ⊥ xs
    → 0 < count_gives xs
    → let r = recv_retry xs 12 false true 0 [] [] fd in (r.0 ≡ failed) × (r.1.arriving ≡ [])
unfolding recv_retry
recv_retry-closed [] fd a p = absurd (omega arith)
recv_retry-closed (gives n f ∷ xs) fd a p =
    let e : (given n 12 [] == 0) ≡ true = ground arith in rw e (refl, refl)
recv_retry-closed (again ∷ xs) fd a p = absurd a.0
recv_retry-closed (interrupted ∷ xs) fd a p = recv_retry-closed xs fd a p
recv_retry-closed (broken ∷ xs) fd a p = absurd a
recv_retry-closed (stopped ∷ xs) fd a p = absurd a

get_next_msg-closed :
    (B : BlobLen) (R : ℕ → Bool) (calls : List RecvOutcome) (fd : Option ℕ) (c : Reader)
    → AllGive ⊥ calls
    → 0 < count_gives calls
    → (s : Source) × (get_next_msg B R calls [] fd c ≡ some (false, s, record c { eof = true }))
      × (s.arriving ≡ [])
unfolding get_next_msg
get_next_msg-closed B R calls fd c a p =
    let (e, e1) = recv_retry-closed calls fd a p in
    ((recv_retry calls 12 false true 0 [] [] fd).1, rw (get_next_msg, e) refl, e1)

module _ (B : BlobLen) (R : ℕ → Bool) (C : Message → Bool) (realloc : NeverFails R)
    (go_on : (m : Message) → C m ≡ false) where
  -- Messages of version 0, each with an 8-byte header, four bytes that announce the length of its
  -- attributes (at most UBUS_MAX_MSGLEN with padding) and the rest, arrive and then the connection
  -- ends; the calls of `recvmsg` give a byte at least or fail with EINTR, and more give bytes than
  -- there are, memory never runs out and nothing ends the event loop: with more fuel than there
  -- are messages `ubus_handle_data` hands exactly these messages to `ubus_process_msg`, in their
  -- order, reads every byte, and ends with the connection marked as lost.
  pub handle_data-Handles :
      (ms : List Sent) (fuel : ℕ) (calls : List RecvOutcome) (fd : Option ℕ) (c : Reader)
      → AllOfVersion0 B ms
      → AllGive ⊥ calls
      → wire_size ms < count_gives calls
      → length ms < fuel
      → Handles ms (handle_data B R C fuel calls (all_bytes ms) fd c)
  unfolding handle_data
  handle_data-Handles ms zero calls fd c h a p q = absurd (omega arith)
  handle_data-Handles [] (suc fuel) calls fd c h a p q =
      let (src, e, none_left) = get_next_msg-closed B R calls fd c a p in
      rw (handle_data, e, none_left) (record { messages = []; result = refl; those = tt })
  handle_data-Handles (m ∷ ms) (suc fuel) calls fd c h a p q =
      let (f, g) =
        get_next_msg-ready B R m fd calls (all_bytes ms) c h.0.0 h.0.1 realloc a (omega arith) in
      let le = g.enough in
      let rest =
        handle_data-Handles ms fuel g.source.calls g.source.fd g.reader h.1 g.calls_give
          (omega arith) (omega arith) in
      rw (handle_data, g.result, g.rest_left, go_on, rest.result)
        (record { messages = _; result = refl; those = ((g.hdr, g.payload), rest.those) })
