-- ===== src/Ubusd/Txq.antt =====
-- ubus/ubusd.c: the queue of messages that a client's socket has not taken yet, and its sending.
pub mod Queue
pub mod Refined
pub mod Stream
pub mod Sending
pub mod Draining
pub mod Greeting
pub mod Shared
pub mod Tests
use libubus_jni.Prelude.{
  ℕ, ◌+◌, ◌-◌, ◌%◌, ◌^◌, Bool, true, false, List, [], ◌∷◌, ◌++◌, Option, none, some, get_or, set,
  take, drop, replicate, length, ltb, leb, ◌&&◌, if◌then◌else◌,
}

-- A message as it goes over the wire: the header and the attributes (`ub->hdr`, `ub->data`), and
-- whether the attributes stand in the buffer that all messages share (`refcount` is ~0).
pub record Packet : Type 0 where
  pub hdr : List ℕ
  pub payload : List ℕ
  pub shared : Bool

-- `sizeof(ub->hdr)`
abbrev pub hdr_size : ℕ
hdr_size = 8

-- UBUSD_CLIENT_BACKLOG
abbrev pub backlog : ℕ
backlog = 32

-- The connection of `struct ubus_client`: `tx_queue`, `txq_cur`, `txq_tail`, `txq_ofs`, whether the
-- socket is watched for ULOOP_WRITE; and the bytes that the socket has taken.
pub record Conn : Type 0 where
  pub tx_queue : List (Option Packet)
  pub txq_cur : ℕ
  pub txq_tail : ℕ
  pub txq_ofs : ℕ
  pub watch_write : Bool
  pub wire : List ℕ

-- What a call of `sendmsg` or `write` gives: how many bytes the socket is ready to take of those
-- offered, EINTR or EAGAIN, or any other error.
pub data Outcome : Type 0 where
  room : ℕ → Outcome
  again : Outcome
  broken : Outcome

-- The buffers that `ubus_msg_writev` passes on for an offset.
unfoldable pub offered : Packet → ℕ → List ℕ
offered ub offset =
    if ltb offset hdr_size
    then drop offset ub.hdr ++ ub.payload
    else drop (offset - hdr_size) ub.payload

-- The kernel takes at most what is offered.
abbrev pub taken : ℕ → List ℕ → ℕ
taken n bytes = if ltb n (length bytes) then n else length bytes

-- `ubus_msg_writev`: the result, `none` for an error, and the connection with the bytes taken.
unfoldable pub writev : Packet → ℕ → Outcome → Conn → Option ℕ × Conn
unfolding offered
writev ub offset (room n) c =
    let bytes = offered ub offset in
    let k = taken n bytes in (some k, record c { wire = c.wire ++ take k bytes })
writev ub offset again c = (none, c)
writev ub offset broken c = (none, c)

abbrev pub slot : Conn → ℕ → Option Packet
slot c i = get_or c.tx_queue i none

-- `ubus_msg_ref`, with `ubus_msg_new`: a copy of a shared message has a header of zeros.
unfoldable pub ref : Packet → Packet
ref ub =
    if ub.shared
    then record { hdr = replicate hdr_size 0; payload = ub.payload; shared = false }
    else ub

-- A message goes to the end of the ring; on a full queue it is dropped.
unfoldable pub put_last : Packet → Conn → Conn
put_last ub c = elim (slot c c.txq_tail) [
  | some _ ↦ c
  | none ↦ record c {
    tx_queue = set c.tx_queue c.txq_tail (some ub);
    txq_tail = (c.txq_tail + 1) % backlog;
  }
]

-- `ubus_msg_enqueue`
unfoldable pub enqueue : Packet → Conn → Conn
unfolding put_last
enqueue ub c = put_last (ref ub) c

-- `written` where it is compared with a `size_t`: -1 becomes the largest one.
abbrev pub as_size : Option ℕ → ℕ
as_size none = 2 ^ 64 - 1
as_size (some n) = n

abbrev pub or_zero : Option ℕ → ℕ
or_zero none = 0
or_zero (some n) = n

-- `ubus_msg_send`. Only an empty queue lets it write at once. `written >= ub->len + sizeof(ub->hdr)`
-- compares unsigned numbers.
unfoldable pub send : Packet → Outcome → Conn → Conn
unfolding writev enqueue
send ub w c = elim (slot c c.txq_cur) [
  | some _ ↦ enqueue ub c
  | none ↦
      let (written, c1) = writev ub 0 w c in
      if leb (length ub.payload + hdr_size) (as_size written)
      then c1
      else enqueue ub (record c1 { txq_ofs = or_zero written; watch_write = true })
]

-- `ubus_msg_dequeue`
unfoldable pub dequeue : Conn → Conn
dequeue c = elim (slot c c.txq_cur) [
  | none ↦ c
  | some _ ↦ record c {
    txq_ofs = 0;
    tx_queue = set c.tx_queue c.txq_cur none;
    txq_cur = (c.txq_cur + 1) % backlog;
  }
]

-- The first loop of `client_cb`, one outcome for each round; a socket that is asked once more gives
-- EAGAIN. The result is false for the jump to `disconnect`.
unfoldable pub flush : List Outcome → Conn → Bool × Conn
unfolding writev dequeue
flush [] c = (true, c)
flush (w ∷ ws) c = elim (slot c c.txq_cur) [
  | none ↦ (true, c)
  | some ub ↦ elim w [
    | again ↦ (true, c)
    | broken ↦ (false, c)
    | room n ↦
        let (written, c1) = writev ub c.txq_ofs (room n) c in
        let c2 = record c1 { txq_ofs = c.txq_ofs + or_zero written } in
        if ltb c2.txq_ofs (length ub.payload + hdr_size) then (true, c2) else flush ws (dequeue c2)
  ]
]

-- `client_cb` up to the label `retry`, where `write` says that ULOOP_WRITE is among the events: no
-- more write events when nothing is left to send. The result is false for the jump to `disconnect`.
unfoldable pub send_pending : List Outcome → Bool → Conn → Bool × Conn
unfolding flush
send_pending ws write c =
    let (live, c1) = flush ws c in
    elim (slot c1 c1.txq_cur) [
      | some _ ↦ (live, c1)
      | none ↦ (live, if live && write then record c1 { watch_write = false } else c1)
    ]

-- A client just accepted (`calloc` in `ubusd_proto_new_client`).
unfoldable pub new_conn : Conn
new_conn = record {
  tx_queue = replicate backlog none;
  txq_cur = 0;
  txq_tail = 0;
  txq_ofs = 0;
  watch_write = false;
  wire = [];
}

-- `get_next_connection` for a client that is accepted, with `ubusd_proto_new_client`: HELLO is sent,
-- and the socket watched for ULOOP_READ alone behind it.
unfoldable pub get_next_connection : Packet → Outcome → Conn
unfolding send new_conn
get_next_connection hello w = record (send hello w new_conn) { watch_write = false }
