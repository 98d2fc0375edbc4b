-- ===== src/Libubus/Io/Receiving.antt =====
-- ubus/libubus-io.c: reading messages from the socket.
pub mod Bounds
pub mod Buffer
pub mod Handled
pub mod Messages
pub mod Opening
pub mod Pieces
use libubus_jni.Prelude.{
  ℕ, zero, suc, ◌+◌, ◌-◌, ◌%◌, Bool, true, false, ◌&&◌, not, List, [], ◌∷◌, ◌++◌, Option, none,
  some, take, drop, length, ltb, leb, if◌then◌else◌, ◌>>=◌, ◌==◌,
}
use libubus_jni.Ubusd.Txq.{hdr_size}
use libubus_jni.Ubusd.Inbox.{BlobLen, max_msglen, hdrbuf_size}

-- What a call of `recvmsg` gives: so many bytes of those that arrive (and asked for), with a
-- descriptor; or an error: EAGAIN, EINTR, another, or any while `uloop_cancelled` is set.
pub data RecvOutcome : Type 0 where
  gives : ℕ → Option ℕ → RecvOutcome
  again interrupted broken stopped : RecvOutcome

-- The result of `recv_retry`: the total, 0, -1, or that it waits still when the list of outcomes
-- ends.
pub data Result : Type 0 where
  total : ℕ → Result
  zero_read failed waits : Result

-- The socket: the calls of `recvmsg` to come, and the bytes that arrive; what has been read, and
-- `recv_fd`.
pub record Source : Type 0 where
  pub calls : List RecvOutcome
  pub arriving : List ℕ
  pub buffer : List ℕ
  pub fd : Option ℕ

-- How many bytes a call gives.
abbrev pub given : ℕ → ℕ → List ℕ → ℕ
given n len arriving =
    if ltb n len
    then (if ltb n (length arriving) then n else length arriving)
    else (if ltb len (length arriving) then len else length arriving)

-- `recv_retry`: the outcomes, `iov_len`, `wait`, whether `recv_fd` is set, the total, what arrives,
-- what is read, and the descriptor.
unfoldable pub recv_retry :
    List RecvOutcome → ℕ → Bool → Bool → ℕ → List ℕ → List ℕ → Option ℕ → Result × Source
recv_retry [] len wait ask sum arriving buffer fd = (
  if len == 0 then total sum else waits,
  record { calls = []; arriving = arriving; buffer = buffer; fd = fd },
)
recv_retry (x ∷ xs) len wait ask sum arriving buffer fd =
    let here : Source = record { calls = x ∷ xs; arriving = arriving; buffer = buffer; fd = fd } in
    let after : Source = record { calls = xs; arriving = arriving; buffer = buffer; fd = fd } in
    let retried = recv_retry xs len wait ask sum arriving buffer fd in
    let waited = recv_retry xs len true false sum arriving buffer (if ask then none else fd) in
    let step : Result × Source = elim x [
      | gives n f ↦
          let bytes = given n len arriving in
          let later =
            recv_retry xs (len - bytes) true false (sum + bytes) (drop bytes arriving)
              (buffer ++ take bytes arriving) (if ask then f else fd) in
          if bytes == 0 then (failed, after) else later
      | again ↦ if not wait then (zero_read, after) else waited
      | interrupted ↦ retried
      | broken ↦ (failed, after)
      | stopped ↦ (zero_read, after)
    ] in
    if len == 0 then (total sum, here) else step

abbrev pub version : List ℕ → ℕ
version [] = 0
version (b ∷ bs) = b

-- `ubus_validate_hdr`: of the twelve bytes the first is the version.
unfoldable pub validate_hdr : BlobLen → List ℕ → Bool
validate_hdr B hdrbuf =
    let attr = drop hdr_size hdrbuf in
    version hdrbuf == 0 && not (ltb (B.raw_len attr) 4) && not (ltb max_msglen (B.pad_len attr))

-- `struct ubus_context` as reading uses it: `sock.eof`; of `msgbuf` the header, the bytes written to
-- `data` for this message (what is behind them is older) and how many it has room for, `none` for
-- NULL; `msgbuf_data_len` and `msgbuf_reduction_counter`.
pub record Reader : Type 0 where
  pub eof : Bool
  pub hdr : List ℕ
  pub data_bytes : List ℕ
  pub room : Option ℕ
  pub msgbuf_data_len : ℕ
  pub msgbuf_reduction_counter : ℕ

-- UBUS_MSG_CHUNK_SIZE
abbrev pub chunk_size : ℕ
chunk_size = 65536

-- UBUS_MSGBUF_REDUCTION_INTERVAL
abbrev pub reduction_interval : ℕ
reduction_interval = 16

-- The length rounded up to whole chunks.
unfoldable pub round_up : ℕ → ℕ
round_up len = let rem = len % chunk_size in if ltb 0 rem then len + (chunk_size - rem) else len

-- `alloc_msg_buf`; the first argument says whether `realloc` gives a block of that size.
unfoldable pub alloc_msg_buf : (ℕ → Bool) → ℕ → Reader → Bool × Reader
alloc_msg_buf R len0 c =
    let buf_len0 = elim c.room as (λ _. ℕ) [ none ↦ 0 | some _ ↦ c.msgbuf_data_len ] in
    let len = round_up len0 in
    let counter = c.msgbuf_reduction_counter + 1 in
    let reduce = ltb reduction_interval counter in
    let buf_len = if ltb len buf_len0 && reduce then 0 else buf_len0 in
    let c1 = record c {
      msgbuf_reduction_counter =
          if ltb len buf_len0 then (if reduce then 0 else counter) else c.msgbuf_reduction_counter;
    } in
    if leb len buf_len
    then (true, c1)
    else if R len
    then (true, record c1 { room = some len })
    else (false, c1)

-- The last lines of `get_next_msg`: `recv_retry` for the `len - 4` bytes behind the announcement.
-- A result of -1 counts as true in the test of the code.
unfoldable pub read_body : ℕ → Source → Reader → Option (Bool × Source × Reader)
read_body len s c =
    let (r, s1) = recv_retry s.calls (len - 4) true false 0 s.arriving c.data_bytes s.fd in
    let c1 = record c { data_bytes = s1.buffer } in
    let got = elim r as (λ _. Option (Bool × Source × Reader)) [
      | total n ↦ some (ltb 0 n, s1, c1)
      | zero_read ↦ some (false, s1, c1)
      | failed ↦ some (true, s1, c1)
      | waits ↦ none
    ] in
    if len == 4 then some (true, s, c) else got

-- `get_next_msg` behind a whole header: its guards, the buffer, and the rest.
unfoldable pub open_msg : BlobLen → (ℕ → Bool) → Source → Reader → Option (Bool × Source × Reader)
open_msg B R s c =
    let attr = drop hdr_size s.buffer in
    let len = B.raw_len attr in
    let (fits, c1) = alloc_msg_buf R len c in
    let body = read_body len s (record c1 { hdr = take hdr_size s.buffer; data_bytes = attr }) in
    if not (validate_hdr B s.buffer)
    then some (false, s, c)
    else if fits
    then body
    else some (false, s, c1)

-- `get_next_msg`: whether there is a message, the socket behind it, and the reader. `none` where a
-- call of `recvmsg` waits still.
unfoldable pub get_next_msg :
    BlobLen
    → (ℕ → Bool)
    → List RecvOutcome
    → List ℕ
    → Option ℕ
    → Reader
    → Option (Bool × Source × Reader)
get_next_msg B R calls arriving fd c =
    let (r, s) = recv_retry calls hdrbuf_size false true 0 arriving [] fd in
    elim r [
      | total _ ↦ open_msg B R s c
      | zero_read ↦ some (false, s, c)
      | failed ↦ some (false, s, record c { eof = true })
      | waits ↦ none
    ]

-- A message for `ubus_process_msg`, and the descriptor with it.
pub record Message : Type 0 where
  pub hdr : List ℕ
  pub payload : List ℕ
  pub fd : Option ℕ

-- `ubus_handle_data`, on fuel: the messages that `ubus_process_msg` gets, in order, the bytes that
-- arrive behind them, and whether `connection_lost` is called; `none` where a call of `recvmsg`
-- waits still, or without fuel. `C` says whether `uloop_cancelled` is set behind a message, whose
-- handling leaves reader and socket as they are.
unfoldable pub handle_data :
    BlobLen
    → (ℕ → Bool)
    → (Message → Bool)
    → ℕ
    → List RecvOutcome
    → List ℕ
    → Option ℕ
    → Reader
    → Option (List Message × List ℕ × Bool)
handle_data B R C zero calls arriving fd c = none
handle_data B R C (suc fuel) calls arriving fd c = do
  next ← get_next_msg B R calls arriving fd c
  let (more, s, c1) = next
  let m : Message = record { hdr = c1.hdr; payload = c1.data_bytes; fd = s.fd }
  let later = do
    rest ← handle_data B R C fuel s.calls s.arriving s.fd c1
    some (m ∷ rest.0, rest.1, rest.2)
  let go = if C m then some (m ∷ [], s.arriving, c1.eof) else later
  if not more then some ([], s.arriving, c1.eof) else go
