-- ===== src/Libubus/Object.antt =====
-- ubus/libubus-obj.c, the messages for objects in ubus/libubus.c, and ubus/libubus-sub.c: what a
-- client does with a message for one of its objects.
pub mod Answered
pub mod Dispatch
pub mod Keeps
pub mod Samples
pub mod Tests
use libubus_jni.Prelude.{
  ℕ, zero, suc, Bool, true, false, ◌||◌, not, List, [], ◌∷◌, Option, none, some, if◌then◌else◌,
  ◌>>=◌, ◌==◌,
}
use libubus_jni.Libubox.Text.{CString, str_eq}
use libubus_jni.Libubox.Tree.{find, update, id_ord}
use libubus_jni.Ubusd.Message.{
  Blob, MsgType, Message, built, put_status, put_objid, put_data, Field,
}

-- What `handler` of a method points to: a function of the application, `ubus_subscriber_cb`, or
-- `ubus_event_cb`.
pub data Handler : Type 0 where
  of_application : ℕ → Handler
  subscriber_cb event_cb : Handler

-- `struct ubus_method`, as far as calls use it.
pub record Method : Type 0 where
  pub name : Option CString
  pub handler : Handler

-- `struct ubus_object`, with what a `struct ubus_subscriber` adds. `ty` is the address of the type,
-- `is_watch` whether `methods` is `watch_method`; a pointer to a function is given by whether it is
-- set.
pub record Object : Type 0 where
  pub id : ℕ
  pub name : Option CString
  pub ty : Option ℕ
  pub methods : List Method
  pub is_watch : Bool
  pub has_subscribers : Bool
  pub subscribe_cb : Bool
  pub cb : Bool
  pub remove_cb : Bool

-- A message for an object, with the attributes that the code reads.
pub record ObjMsg : Type 0 where
  pub msg_type : MsgType
  pub seq : ℕ
  pub peer : ℕ
  pub objid : Option ℕ
  pub method : Option CString
  pub no_reply : Option ℕ
  pub payload : Option Blob
  pub target : Option ℕ
  pub active : Option ℕ

-- `struct ubus_request_data`
pub record RequestData : Type 0 where
  pub object : ℕ
  pub peer : ℕ
  pub seq : ℕ
  pub deferred : Bool
  pub fd : Option ℕ

-- `struct ubus_context` as objects use it: the memory of the objects by their addresses, the tree
-- `objects`, the id of each type by its address, `stack_depth`, the list `pending`, whether the
-- socket is registered and the timer set; the block of `msgbuf` and those freed; and the messages
-- sent, the latest first.
pub record Host : Type 0 where
  pub memory : List (ℕ × Object)
  pub objects : List (ℕ × ℕ)
  pub types : List (ℕ × ℕ)
  pub stack_depth : ℕ
  pub pending : List ObjMsg
  pub registered : Bool
  pub pending_timer : Bool
  pub msgbuf : Option ℕ
  pub freed : List ℕ
  pub sent : List Message

-- The functions of the application, by what they do to the context: a method or the `cb` of a
-- subscriber or event handler (with the object, the request, the method and the payload),
-- `subscribe_cb`, `remove_cb`; and what ubus/libubus-req.c does with a message for a request.
pub record Program : Type 0 where
  pub run : Handler → ℕ → RequestData → CString → Option Blob → Host → ℕ × RequestData × Host
  pub subscribed : ℕ → Host → Host
  pub removed : ℕ → ℕ → Host → Host
  pub answer : ObjMsg → Host → Host

unfoldable pub object : ℕ → Host → Option Object
object a h = find a h.memory

-- `req` as it stands at the start of `ubus_process_invoke`.
abbrev pub no_request : RequestData
no_request = record { object = 0; peer = 0; seq = 0; deferred = false; fd = none }

abbrev pub status_of : RequestData → ℕ → Message
status_of req ret = record {
  msg_type = MsgType.status;
  seq = req.seq;
  peer = req.peer;
  fd = req.fd;
  body = built (put_status ret ∷ put_objid req.object ∷ []);
}

-- `ubus_complete_deferred_request`
unfoldable pub complete_deferred_request : RequestData → ℕ → Host → Host
complete_deferred_request req ret h = record h { sent = status_of req ret ∷ h.sent }

-- `ubus_send_reply`: whether `ubus_send_msg` succeeds is passed in; UBUS_STATUS_NO_DATA is 5.
unfoldable pub send_reply : Bool → RequestData → Blob → Host → ℕ × Host
send_reply ok req msg h = (
  if ok then 0 else 5,
  record h {
    sent =
        record {
          msg_type = MsgType.data_reply;
          seq = req.seq;
          peer = req.peer;
          fd = none;
          body = built (put_objid req.object ∷ put_data msg ∷ []);
        }
        ∷ h.sent;
  },
)

-- Whether the search for a method stops here: one without a name takes every call.
abbrev pub takes_call : CString → Method → Bool
takes_call name m = elim m.name [ none ↦ true | some n ↦ str_eq n name ]

unfoldable pub find_method : CString → List Method → Option Method
find_method name [] = none
find_method name (m ∷ ms) = if takes_call name m then some m else find_method name ms

-- `ubus_subscriber_cb` calls `cb` if it is set; `ubus_event_cb` calls it and returns 0.
unfoldable pub call_handler :
    Program
    → Handler
    → ℕ
    → Object
    → RequestData
    → CString
    → Option Blob
    → Host
    → ℕ × RequestData × Host
call_handler P (of_application n) a o req name b h = P.run (of_application n) a req name b h
call_handler P subscriber_cb a o req name b h =
    if o.cb then P.run subscriber_cb a req name b h else (0, req, h)
call_handler P event_cb a o req name b h = (0, req, (P.run event_cb a req name b h).2)

-- `blob_get_int8` of UBUS_ATTR_NO_REPLY
abbrev pub is_set : Option ℕ → Bool
is_set none = false
is_set (some n) = not (n == 0)

abbrev pub request_of : Object → ObjMsg → RequestData
request_of o m = record no_request { peer = m.peer; seq = m.seq; object = o.id }

-- `ubus_process_invoke`, from the label `found` on.
unfoldable pub run_method : Program → ObjMsg → ℕ → Object → CString → Method → Host → Host
run_method P m a o name f h =
    let (ret, req, h1) = call_handler P f.handler a o (request_of o m) name m.payload h in
    if req.deferred || is_set m.no_reply then h1 else complete_deferred_request req ret h1

-- `ubus_process_invoke`; `none` is a read of an object that is not in memory.
unfoldable pub process_invoke : Program → ObjMsg → Option ℕ → Host → Option Host
process_invoke P m none h = some (complete_deferred_request no_request 4 h)
process_invoke P m (some a) h = do
  o ← object a h
  elim m.method [
    | none ↦ some (complete_deferred_request no_request 2 h)
    | some name ↦ elim (find_method name o.methods) [
      | none ↦ some (complete_deferred_request (request_of o m) 3 h)
      | some f ↦ some (run_method P m a o name f h)
    ]
  ]

-- `ubus_process_unsubscribe`
unfoldable pub process_unsubscribe : Program → ObjMsg → Option ℕ → Host → Option Host
process_unsubscribe P m none h = some h
process_unsubscribe P m (some a) h = elim m.target [
  | none ↦ some h
  | some t ↦ do
    o ← object a h
    some (if o.is_watch then (if o.remove_cb then P.removed a t h else h) else h)
]

-- `ubus_process_notify`
unfoldable pub process_notify : Program → ObjMsg → Option ℕ → Host → Option Host
process_notify P m none h = some h
process_notify P m (some a) h = elim m.active [
  | none ↦ some h
  | some v ↦ do
    o ← object a h
    let h1 = record h {
      memory = update a (λ x. record x { has_subscribers = not (v == 0) }) h.memory;
    }
    some (if o.subscribe_cb then P.subscribed a h1 else h1)
]

-- The lines behind the call in `ubus_process_obj_msg`: the buffer comes back, or is freed when
-- another one has taken its place.
unfoldable pub restore_msgbuf : Option ℕ → Host → Host
restore_msgbuf none h = h
restore_msgbuf (some prev) h = elim h.msgbuf [
  | some _ ↦ record h { freed = prev ∷ h.freed }
  | none ↦ record h { msgbuf = some prev }
]

-- `ubus_process_obj_msg`; the first argument says whether the message stands in `msgbuf`.
unfoldable pub process_obj_msg : Bool → Program → ObjMsg → Host → Option Host
process_obj_msg in_msgbuf P m h = elim m.objid [
  | none ↦ some h
  | some id ↦
      let obj = find id h.objects in
      let prev = if in_msgbuf then h.msgbuf else none in
      let h1 = if in_msgbuf then record h { msgbuf = none } else h in
      elim m.msg_type [
        | MsgType.invoke ↦ process_invoke P m obj h1 >>= λ h2. some (restore_msgbuf prev h2)
        | MsgType.unsubscribe ↦
            process_unsubscribe P m obj h1 >>= λ h2. some (restore_msgbuf prev h2)
        | MsgType.notify ↦ process_notify P m obj h1 >>= λ h2. some (restore_msgbuf prev h2)
        | _ ↦ some h
      ]
]
