-- ===== src/Ubusd/Proto/Call.antt =====
-- ubus/ubusd_proto.c: method calls, notifications and their responses passed on.
pub mod Notified
pub mod Routing
use libubus_jni.Prelude.{
  ℕ, Bool, true, false, ◌&&◌, List, [], ◌∷◌, Option, none, some, ◌==◌, if◌then◌else◌, ◌>>=◌, not,
}
use libubus_jni.Libubox.Text.{CString}
use libubus_jni.Libubox.Tree.{find, id_ord, string_ord}
use libubus_jni.Ubusd.Message.{
  Blob, Attrs, Field, put_status, put_objid, put_method, put_data, put_no_reply, put_subscribers,
  received, MsgType, MsgBuf, Blobmsg, Status,
}
use libubus_jni.Ubusd.State.{Object, Daemon, freed, find_object, add_log, send_to, same_client}
use libubus_jni.Ubusd.Event.{event_recv}
use libubus_jni.Ubusd.Proto.Reply.{Ret, status, consumed, Handler, send_msg_from_blob}

abbrev pub data_field : Option Blob → List Field
data_field none = []
data_field (some b) = put_data b ∷ []

-- `ubusd_forward_invoke`, behind what the buffer holds already.
unfoldable pub forward_invoke : ℕ → CString → MsgBuf → List Field → Daemon → Option Daemon
unfolding find_object send_msg_from_blob
forward_invoke id method ub fields d = do
  o ← find_object id d
  send_msg_from_blob o.client ub MsgType.invoke fields d

-- `ubusd_handle_invoke` with the object found. Without a client it calls `recv_msg`.
unfoldable pub invoke_object :
    Blobmsg → ℕ → MsgBuf → ℕ → CString → Object → Daemon → Option (Ret × Daemon)
unfolding event_recv forward_invoke add_log
invoke_object B cl ub id method o d = elim o.client [
  | none ↦
      let call = do (st, d1) ← event_recv B cl method ub.attrs.payload d; some (status st, d1)
      in if o.recv_msg then call else none
  | some _ ↦ do
    let ub1 = record ub { peer = cl }
    let fields = put_objid id ∷ put_method method ∷ data_field ub.attrs.payload
    d1 ← forward_invoke id method ub1 fields d
    some (consumed, add_log freed d1)
]

-- `ubusd_handle_invoke`
unfoldable pub handle_invoke : Blobmsg → Handler
unfolding find_object invoke_object
handle_invoke B cl ub d = elim ub.attrs.method [
  | none ↦ some (status Status.invalid_argument, d)
  | some method ↦ elim ub.attrs.objid [
    | none ↦ some (status Status.invalid_argument, d)
    | some id ↦ elim (find_object id d) [
      | none ↦ some (status Status.not_found, d)
      | some o ↦ invoke_object B cl ub id method o d
    ]
  ]
]

abbrev pub no_reply_field : Bool → List Field → List Field
no_reply_field true fs = put_no_reply true ∷ fs
no_reply_field false fs = fs

-- The last loop of `ubusd_handle_notify`, over the object's subscribers.
unfoldable pub notify_subscribers : CString → MsgBuf → Bool → List ℕ → Daemon → Option Daemon
unfolding forward_invoke
notify_subscribers method ub no_reply [] d = some d
notify_subscribers method ub no_reply (s ∷ ss) d =
    let fields = put_objid s ∷ put_method method ∷ data_field ub.attrs.payload in
    forward_invoke s method ub (no_reply_field no_reply fields) d
    >>= notify_subscribers method ub no_reply ss

-- `blob_get_int8` of the attribute, as a truth value; a missing one is false.
abbrev pub is_set : Option ℕ → Bool
is_set none = false
is_set (some n) = not (n == 0)

-- `ubusd_handle_notify` with the object found, and owned by the client.
unfoldable pub notify_object : ℕ → MsgBuf → ℕ → CString → Object → Daemon → Option (Ret × Daemon)
unfolding send_msg_from_blob notify_subscribers add_log
notify_object cl ub id method o d = do
  let no_reply = is_set ub.attrs.no_reply
  let fields = put_objid id ∷ put_subscribers o.subscribers ∷ put_status 0 ∷ []
  let reply = send_msg_from_blob (some cl) ub MsgType.status fields d
  d1 ← (if no_reply then some d else reply)
  d2 ← notify_subscribers method (record ub { peer = cl }) no_reply o.subscribers d1
  some (consumed, add_log freed d2)

-- `ubusd_handle_notify`
unfoldable pub handle_notify : Handler
unfolding find_object same_client notify_object
handle_notify cl ub d = elim ub.attrs.method [
  | none ↦ some (status Status.invalid_argument, d)
  | some method ↦ elim ub.attrs.objid [
    | none ↦ some (status Status.invalid_argument, d)
    | some id ↦ elim (find_object id d) [
      | none ↦ some (status Status.not_found, d)
      | some o ↦
          if same_client o.client (some cl)
          then notify_object cl ub id method o d
          else some (status Status.permission_denied, d)
    ]
  ]
]

abbrev pub is_some {ℓ} : {A : Type ℓ} → Option A → Bool
is_some none = false
is_some (some _) = true

-- A status reply wants its status, and a data reply its data.
abbrev pub has_payload : MsgType → Attrs → Bool
has_payload MsgType.status a = is_some a.status
has_payload MsgType.data_reply a = is_some a.payload
has_payload _ a = true

-- The label `error` of `ubusd_handle_response`.
unfoldable pub drop_response : Daemon → Option (Ret × Daemon)
unfolding add_log
drop_response d = some (consumed, add_log freed d)

-- The end of `ubusd_handle_response`: to the client that the message names, from the object.
unfoldable pub pass_response : ℕ → MsgBuf → Daemon → Option (Ret × Daemon)
unfolding drop_response add_log
pass_response id ub d = elim (find ub.peer d.clients) [
  | none ↦ drop_response d
  | some _ ↦
      send_to (some ub.peer)
        (record {
          msg_type = ub.msg_type;
          seq = ub.seq;
          peer = id;
          fd = ub.fd;
          body = received ub.attrs;
        })
        d
      >>= λ d1. some (consumed, add_log freed d1)
]

-- `ubusd_handle_response`
unfoldable pub handle_response : Handler
unfolding find_object same_client drop_response pass_response
handle_response cl ub d = elim ub.attrs.objid [
  | none ↦ drop_response d
  | some id ↦ elim (find_object id d) [
    | none ↦ drop_response d
    | some o ↦
        if has_payload ub.msg_type ub.attrs && same_client (some cl) o.client
        then pass_response id ub d
        else drop_response d
  ]
]
