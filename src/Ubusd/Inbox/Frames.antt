-- ===== src/Ubusd/Inbox/Frames.antt =====
-- What a client sends is what ubusd accepts (ubus/ubusd.c).
use mathlib.Core.List.{append-nil}
use libubus_jni.Prelude.{
  ℕ, ◌+◌, ◌-◌, ◌≤◌, ◌≡◌, refl, ap, ◌∙◌, arith, true, false, List, [], ◌∷◌, ◌++◌, Option, none, some,
  ◌>>=◌, ◌==◌, ltb, drop, length, length-append, ◌&&◌, not, ◌≢◌, drop-all, drop-prefix, take-prefix,
  take-all, Bool-cases, inl, inr, if◌then◌else◌, ◌&&◌, not, ◌≢◌,
}
use libubus_jni.Ubusd.Txq.{hdr_size}
use libubus_jni.Ubusd.Inbox.{
  BlobLen, Frame, Pending, Inbox, Read, got, Next, retry, accept, accept_message, open_message,
  read_header, read_payload, round, receive, max_msglen, hdrbuf_size,
}

-- A message as a client sends it: header, the four bytes that announce the length of the
-- attributes, and what follows them.
pub record Sent : Type 0 where
  pub hdr : List ℕ
  pub attr : List ℕ
  pub body : List ℕ
  pub fd : Option ℕ

pub record IsMessage (B : BlobLen) (s : Sent) : Type 0 where
  pub hdr_whole : length s.hdr ≡ hdr_size
  pub attr_whole : length s.attr ≡ 4
  pub raw : B.raw_len s.attr ≡ 4 + length s.body
  pub short : B.pad_len s.attr ≤ max_msglen

-- The calls that read it: one for the header and the announcement, one for the rest if there is any.
abbrev pub reads_of : Sent → List Read
reads_of s =
    let head = got (s.hdr ++ s.attr) s.fd in
    if length s.body == 0 then head ∷ [] else head ∷ got s.body none ∷ []

abbrev pub frame_of : Sent → Frame
frame_of s = record { hdr = s.hdr; payload = s.attr ++ s.body; fd = s.fd }

-- No message is half read.
pub record IsIdle (i : Inbox) : Type 0 where
  pub connected : i.eof ≡ false
  pub buffer : length i.hdrbuf ≡ hdrbuf_size
  pub offset : i.pending_msg_offset ≡ 0
  pub no_fd : i.pending_msg_fd ≡ none
  pub no_msg : i.pending_msg ≡ none

-- The inbox after the header and the announcement.
abbrev pub opened : Sent → Inbox → Inbox
opened s i = record i { hdrbuf = s.hdr ++ s.attr; pending_msg_offset = 12; pending_msg_fd = s.fd }

-- The inbox behind the message.
abbrev pub after : Sent → Inbox → Inbox
after s i = record i {
  hdrbuf = s.hdr ++ s.attr;
  pending_msg_offset = 0;
  pending_msg_fd = none;
  pending_msg = none;
}

abbrev pub begun : Sent → Pending
begun s = record { hdr = s.hdr; so_far = s.attr; raw = 4 + length s.body }

module _ (B : BlobLen) (s : Sent) (h : IsMessage B s) (i : Inbox) (idle : IsIdle i) where
  head_length : length (s.hdr ++ s.attr) ≡ 12
  head_length = omega (arith, length-append s.hdr s.attr, h.hdr_whole, h.attr_whole)

  read_header_lem : read_header B (got (s.hdr ++ s.attr) s.fd) i ≡ open_message B (opened s i)
  unfolding read_header
  read_header_lem =
      let none_left : drop 12 i.hdrbuf ≡ [] = drop-all 12 i.hdrbuf (omega (arith, idle.buffer)) in
      rw
        (
          idle.offset,
          idle.no_fd,
          take-all 12 (s.hdr ++ s.attr) (omega (arith, head_length)),
          head_length,
          none_left,
          append-nil (s.hdr ++ s.attr),
          read_header,
        )
        refl

  open_message_lem : open_message B (opened s i) ≡ (
      if length s.body == 0
      then some (accept (frame_of s), after s i)
      else some (retry, record (opened s i) { pending_msg = some (begun s) }))
  unfolding open_message accept_message
  open_message_lem =
      let short : ltb max_msglen (B.pad_len s.attr) ≡ false = ground (arith, h.short) in
      let enough : ltb (4 + length s.body) 4 ≡ false = ground arith in
      rw
        (
          drop-prefix 8 s.hdr s.attr h.hdr_whole,
          take-prefix 8 s.hdr s.attr h.hdr_whole,
          h.raw,
          short,
          enough,
          open_message,
        )
        (bodies s.body)
    where
      bodies :
          (b : List ℕ)
          → ◌≡◌ {A = Option (Next × Inbox)}
              (if 4 + length b == 4
                then some (accept (record { hdr = s.hdr; payload = s.attr; fd = s.fd }), after s i)
                else some (
                  retry,
                  record (opened s i) {
                    pending_msg =
                        some (record { hdr = s.hdr; so_far = s.attr; raw = 4 + length b });
                  },
                ))
              (if length b == 0
                then some
                    (accept (record { hdr = s.hdr; payload = s.attr ++ b; fd = s.fd }), after s i)
                else some (
                  retry,
                  record (opened s i) {
                    pending_msg =
                        some (record { hdr = s.hdr; so_far = s.attr; raw = 4 + length b });
                  },
                ))
      bodies [] = rw (append-nil s.attr) refl
      bodies (x ∷ xs) = ground arith

  round_head : round B (got (s.hdr ++ s.attr) s.fd) i ≡ open_message B (opened s i)
  unfolding round
  round_head =
      let header : not i.eof && ltb i.pending_msg_offset hdrbuf_size ≡ true =
        rw (idle.connected, idle.offset) refl in
      rw (header, round) read_header_lem

  round_body :
      length s.body ≢ 0
      → round B (got s.body none) (record (opened s i) { pending_msg = some (begun s) })
        ≡ some (accept (frame_of s), after s i)
  unfolding round read_payload accept_message
  round_body ne =
      let header : not i.eof && ltb 12 hdrbuf_size ≡ false = rw idle.connected refl in
      let rest : 4 + length s.body - (12 - 8) ≡ length s.body = omega arith in
      let whole = take-all (length s.body) s.body (omega arith) in
      let some_bytes : length s.body == 0 ≡ false = ground arith in
      let all_bytes : ltb (length s.body) (length s.body) ≡ false = ground arith in
      rw (header, rest, whole, some_bytes, all_bytes, round) refl

  -- One message, and then whatever the socket gives.
  receive_one :
      (rs : List Read)
      → receive B (reads_of s ++ rs) i
        ≡ (receive B rs (after s i) >>= λ x. some (frame_of s ∷ x.0, x.1, x.2))
  unfolding receive
  receive_one rs = elim (Bool-cases (length s.body == 0)) [
    | inl e ↦ rw (e, round_head, open_message_lem, e, receive) refl
    | inr e ↦ rw (e, round_head, open_message_lem, e, round_body (ground arith), receive) refl
  ]

after-IsIdle : (B : BlobLen) (s : Sent) (i : Inbox) → IsMessage B s → IsIdle i → IsIdle (after s i)
after-IsIdle B s i h idle = record {
  connected = idle.connected;
  buffer = head_length B s h i idle;
  offset = refl;
  no_fd = refl;
  no_msg = refl;
}

abbrev pub AllMessages : BlobLen → List Sent → Type 0
AllMessages B [] = Unit
AllMessages B (s ∷ ss) = IsMessage B s × AllMessages B ss

abbrev pub all_reads : List Sent → List Read
all_reads [] = []
all_reads (s ∷ ss) = reads_of s ++ all_reads ss

abbrev pub frames_of : List Sent → List Frame
frames_of [] = []
frames_of (s ∷ ss) = frame_of s ∷ frames_of ss

-- Messages with an 8-byte header, four bytes that announce the length of all attributes (at most
-- UBUS_MAX_MSGLEN with padding) and the rest of them come in on a connection with no message half
-- read, where one call gives the header and the announcement whole and the next the rest, if there
-- is any: `client_cb` accepts exactly these messages, in their order, with their descriptors, and
-- no message is half read afterwards.
pub receive-frames_of :
    (B : BlobLen) (ss : List Sent) (i : Inbox)
    → AllMessages B ss
    → IsIdle i
    → (i1 : Inbox) × IsIdle i1 × (receive B (all_reads ss) i ≡ some (frames_of ss, true, i1))
unfolding receive
receive-frames_of B [] i h idle = (i, idle, refl)
receive-frames_of B (s ∷ ss) i h idle =
    let (i1, idle1, r) = receive-frames_of B ss (after s i) h.1 (after-IsIdle B s i h.0 idle) in
    (
      i1,
      idle1,
      receive_one B s h.0 i idle (all_reads ss)
          ∙ ap (λ m. m >>= λ x. some (frame_of s ∷ x.0, x.1, x.2)) r,
    )
