-- ===== src/Ubusd/Inbox.antt =====
-- ubus/ubusd.c: the receiving half of `client_cb`, which puts messages together from what the socket
-- gives.
pub mod Frames
pub mod Split
pub mod Tests
use libubus_jni.Prelude.{
  ℕ, ◌+◌, ◌-◌, ◌*◌, Bool, true, false, ◌&&◌, not, List, [], ◌∷◌, ◌++◌, Option, none, some, take,
  drop, length, ltb, if◌then◌else◌, ◌>>=◌, ◌==◌,
}
use libubus_jni.Ubusd.Txq.{hdr_size}

-- `sizeof(cl->hdrbuf)`: the header and a `struct blob_attr`.
abbrev pub hdrbuf_size : ℕ
hdrbuf_size = 12

-- UBUS_MAX_MSGLEN
abbrev pub max_msglen : ℕ
max_msglen = 1048576

-- The lengths that libubox reads from the four bytes of a `struct blob_attr`: `blob_raw_len` and
-- `blob_pad_len`.
pub record BlobLen : Type 0 where
  pub raw_len : List ℕ → ℕ
  pub pad_len : List ℕ → ℕ

-- A message: its header, its attributes, and the descriptor that came with it.
pub record Frame : Type 0 where
  pub hdr : List ℕ
  pub payload : List ℕ
  pub fd : Option ℕ

-- `pending_msg`: its header, the bytes of its attributes so far, and their number when complete.
pub record Pending : Type 0 where
  pub hdr : List ℕ
  pub so_far : List ℕ
  pub raw : ℕ

-- What `struct ubus_client` has for a message that comes in, and `sock->eof`.
pub record Inbox : Type 0 where
  pub eof : Bool
  pub hdrbuf : List ℕ
  pub pending_msg_offset : ℕ
  pub pending_msg_fd : Option ℕ
  pub pending_msg : Option Pending

-- What a call of `recvmsg` or `read` gives: -1, or the bytes that are there (the call takes no more
-- than it asks for) and a descriptor.
pub data Read : Type 0 where
  failed : Read
  got : List ℕ → Option ℕ → Read

-- Where the code goes: to `retry`, to `out`, to `disconnect`, or to `retry` with a message accepted.
-- `overrun at n` is a write of `n` bytes from byte `at` of `hdrbuf` on, which goes past its end.
pub data Next : Type 0 where
  retry out disconnect : Next
  accept : Frame → Next
  overrun : ℕ → ℕ → Next

-- "accept message"
unfoldable pub accept_message : Pending → Inbox → Next × Inbox
accept_message p i = (
  accept (record { hdr = p.hdr; payload = p.so_far; fd = i.pending_msg_fd }),
  record i { pending_msg_fd = none; pending_msg_offset = 0; pending_msg = none },
)

-- A complete header: the message that it announces. `none` is the copy of four bytes into a block
-- that has fewer.
unfoldable pub open_message : BlobLen → Inbox → Option (Next × Inbox)
unfolding accept_message
open_message B i =
    let attr = drop hdr_size i.hdrbuf in
    let raw = B.raw_len attr in
    let p : Pending = record { hdr = take hdr_size i.hdrbuf; so_far = attr; raw = raw } in
    let i1 = record i { pending_msg = some p } in
    if ltb max_msglen (B.pad_len attr)
    then some (disconnect, i)
    else if ltb raw 4
    then none
    else if raw == 4
    then some (accept_message p i1)
    else some (retry, i1)

abbrev pub or_else : Option ℕ → Option ℕ → Option ℕ
or_else none f = f
or_else (some x) f = some x

-- The first part: bytes of the header. They are read to `&cl->hdrbuf + offset`, which counts in
-- units of the whole buffer. Where they do not end inside it, what the memory behind it holds is not
-- known from there on.
unfoldable pub read_header : BlobLen → Read → Inbox → Option (Next × Inbox)
unfolding open_message
read_header B failed i = some (out, i)
read_header B (got bs f) i =
    let new = take (hdrbuf_size - i.pending_msg_offset) bs in
    let start = hdrbuf_size * i.pending_msg_offset in
    let stop = start + length new in
    let i1 = record i {
      hdrbuf = take start i.hdrbuf ++ (new ++ drop stop i.hdrbuf);
      pending_msg_fd = or_else i.pending_msg_fd f;
      pending_msg_offset = i.pending_msg_offset + length new;
    } in
    let whole = open_message B i1 in
    if ltb 0 (length new) && ltb hdrbuf_size stop
    then some (overrun start (length new), i)
    else if ltb i1.pending_msg_offset hdrbuf_size
    then some (out, i1)
    else whole

-- The second part: bytes of the attributes.
unfoldable pub read_payload : Read → Pending → Inbox → Next × Inbox
unfolding accept_message
read_payload failed p i = (out, i)
read_payload (got bs f) p i =
    let len = p.raw - (i.pending_msg_offset - hdr_size) in
    let new = take len bs in
    let p1 = record p { so_far = p.so_far ++ new } in
    let whole = accept_message p1 i in
    if length new == 0
    then (out, i)
    else if ltb (length new) len
    then (
      out,
      record i { pending_msg = some p1; pending_msg_offset = i.pending_msg_offset + length new },
    )
    else whole

-- One call of `recvmsg` or `read`, and what follows it.
unfoldable pub round : BlobLen → Read → Inbox → Option (Next × Inbox)
round B r i =
    let header = read_header B r i in
    if not i.eof && ltb i.pending_msg_offset hdrbuf_size
    then header
    else elim i.pending_msg [ none ↦ some (out, i) | some p ↦ some (read_payload r p i) ]

-- The loop at `retry`, one element of the list for each call; a socket that is asked once more has
-- nothing. The result is the messages accepted, in their order, and false for `disconnect`; `none` is
-- a write out of bounds.
unfoldable pub receive : BlobLen → List Read → Inbox → Option (List Frame × Bool × Inbox)
receive B [] i = some ([], true, i)
receive B (r ∷ rs) i = do
  (next, i1) ← round B r i
  elim next [
    | retry ↦ receive B rs i1
    | out ↦ some ([], true, i1)
    | disconnect ↦ some ([], false, i1)
    | overrun _ _ ↦ none
    | accept f ↦ receive B rs i1 >>= λ x. some (f ∷ x.0, x.1, x.2)
  ]
