-- ===== src/Libubus/Connect.antt =====
-- ubus/libubus-io.c: `ubus_reconnect`, the opening of a connection to ubusd.
pub mod Refused
pub mod Greeted
pub mod Tests
use libubus_jni.Prelude.{
  ℕ, zero, suc, ◌-◌, Bool, true, false, not, List, [], ◌∷◌, Option, none, some, take, drop, length,
  if◌then◌else◌, ◌>>=◌, ◌==◌,
}
use libubus_jni.Ubusd.Txq.{hdr_size}
use libubus_jni.Ubusd.Inbox.{BlobLen, hdrbuf_size}
use libubus_jni.Libubus.Io.Receiving.{validate_hdr}
use libubus_jni.Libubus.Object.{Host}
use libubus_jni.Libubus.Registry.{Answer, refresh_state}

-- `struct ubus_context` as connecting uses it: the objects, `sock.fd` (`none` for -1), `local_id`,
-- and the descriptors closed, the latest first.
pub record Link : Type 0 where
  pub host : Host
  pub fd : Option ℕ
  pub local_id : ℕ
  pub closed : List ℕ

-- What the calls of `ubus_reconnect` give: the descriptor of `usock`, the bytes of the two calls of
-- `read` (none for an error), whether `calloc` gives a block, and what ubusd answers for the objects.
pub record Greeting : Type 0 where
  pub opened : Option ℕ
  pub header : List ℕ
  pub allocated : Bool
  pub payload : List ℕ
  pub answers : List Answer

-- `hdr.type`, the second byte.
abbrev pub type_of : List ℕ → ℕ
type_of [] = 0
type_of (v ∷ []) = 0
type_of (v ∷ t ∷ bs) = t

-- Whether the first message is whole, and UBUS_MSG_HELLO (0).
unfoldable pub is_hello : BlobLen → Greeting → Bool
is_hello B g =
    if not (length g.header == hdrbuf_size)
    then false
    else if not (validate_hdr B g.header)
    then false
    else if not (type_of g.header == 0)
    then false
    else if not g.allocated
    then false
    else length g.payload == B.raw_len (drop hdr_size g.header) - 4

-- The old connection is closed.
unfoldable pub hang_up : Link → Link
hang_up l = elim l.fd [
  | none ↦ l
  | some fd ↦ record l { host = record l.host { registered = false }; closed = fd ∷ l.closed }
]

-- `ubus_reconnect`: `word` is the number that four bytes of memory are. UBUS_STATUS_UNKNOWN_ERROR is
-- 9, UBUS_STATUS_CONNECTION_FAILED 10; `none` is a fault of `ubus_refresh_state`.
unfoldable pub reconnect : BlobLen → (List ℕ → ℕ) → Greeting → Link → Option (ℕ × Link)
reconnect B word g l =
    let l0 = hang_up l in
    elim g.opened [
      | none ↦ some (10, record l0 { fd = none })
      | some fd ↦
          let id = word (take 4 (drop 4 g.header)) in
          let refused = some (9, record l0 { fd = some fd; closed = fd ∷ l0.closed }) in
          let nameless =
            some (9, record l0 { fd = some fd; local_id = id; closed = fd ∷ l0.closed }) in
          let connected = do
            h ← refresh_state g.answers l0.host
            some (0, record l0 { fd = some fd; local_id = id; host = h })
          in if not (is_hello B g) then refused else if id == 0 then nameless else connected
    ]
