-- ===== src/Libubus/Object/Dispatch.antt =====
-- Which method a call runs, wherever its message stands (ubus/libubus-obj.c).
use libubus_jni.Prelude.{
  ℕ, ◌≡◌, refl, Bool, ap, ◌∙◌, true, false, ◌||◌, List, [], ◌∷◌, ◌++◌, none, some, if◌then◌else◌,
}
use libubus_jni.Libubox.Text.{CString}
use libubus_jni.Libubox.Tree.{find, id_ord}
use libubus_jni.Ubusd.Message.{MsgType}
use libubus_jni.Libubus.Object.{
  Method, Object, ObjMsg, RequestData, Host, Program, object, status_of, complete_deferred_request,
  takes_call, find_method, call_handler, is_set, request_of, run_method, process_invoke,
  restore_msgbuf, process_obj_msg,
}

-- No method of the list takes the call.
abbrev pub NoneTakes : CString → List Method → Type 0
NoneTakes name [] = Unit
NoneTakes name (m ∷ ms) = (takes_call name m ≡ false) × NoneTakes name ms

find_method-first :
    (name : CString) (before : List Method) (f : Method) (after : List Method)
    → NoneTakes name before
    → takes_call name f ≡ true
    → find_method name (before ++ (f ∷ after)) ≡ some f
unfolding find_method
find_method-first name [] f after n e = rw e refl
find_method-first name (b ∷ bs) f after n e = rw n.0 (find_method-first name bs f after n.1 e)

pub find_method-none :
    (name : CString) (ms : List Method) → NoneTakes name ms → find_method name ms ≡ none
unfolding find_method
find_method-none name [] n = refl
find_method-none name (m ∷ ms) n = rw n.0 (find_method-none name ms n.1)

-- A call of an object of the client.
pub record Calls (m : ObjMsg) (a : ℕ) (o : Object) (name : CString) (h : Host) : Type 0 where
  pub invokes : m.msg_type ≡ MsgType.invoke
  pub id : ℕ
  pub names_object : m.objid ≡ some id
  pub registered : find id h.objects ≡ some a
  pub in_memory : object a h ≡ some o
  pub names_method : m.method ≡ some name

-- The context while a message is handled, which may stand in the buffer of the connection.
abbrev pub taken_buf : Bool → Host → Host
taken_buf in_msgbuf h = if in_msgbuf then record h { msgbuf = none } else h

-- And behind it, where the function for the message has left the context `h1`.
abbrev pub given_back : Bool → Host → Host → Host
given_back in_msgbuf h h1 = restore_msgbuf (if in_msgbuf then h.msgbuf else none) h1

pub object-taken_buf :
    (in_msgbuf : Bool) (a : ℕ) (h : Host) → object a (taken_buf in_msgbuf h) ≡ object a h
unfolding object
object-taken_buf true a h = refl
object-taken_buf false a h = refl

pub process_obj_msg-method :
    (P : Program) (in_msgbuf : Bool) (m : ObjMsg) (a : ℕ) (o : Object) (name : CString) (h : Host)
    (f : Method)
    → Calls m a o name h
    → find_method name o.methods ≡ some f
    → process_obj_msg in_msgbuf P m h
      ≡ some (given_back in_msgbuf h (run_method P m a o name f (taken_buf in_msgbuf h)))
unfolding process_obj_msg process_invoke run_method
process_obj_msg-method P in_msgbuf m a o name h f c e =
    let there = object-taken_buf in_msgbuf a h ∙ c.in_memory in
    rw (c.names_object, process_obj_msg)
      (rw (c.invokes) (rw (c.registered) (rw there (rw (c.names_method) (rw e refl)))))

-- What the caller gets behind the handler's result `r`.
abbrev pub answered : ObjMsg → ℕ × RequestData × Host → Host
answered m r =
    if r.1.deferred || is_set m.no_reply
    then r.2
    else record r.2 { sent = status_of r.1 r.0 ∷ r.2.sent }

-- A call of an object in the memory of the client runs the first method of the object that has the
-- name of the call or no name, once and with the peer and the sequence number of the call, and
-- then sends one status, that of the method, unless the method defers it or the call wants no
-- reply.
pub process_obj_msg-first :
    (P : Program) (in_msgbuf : Bool) (m : ObjMsg) (a : ℕ) (o : Object) (name : CString) (h : Host)
    (before : List Method) (f : Method) (after : List Method)
    → Calls m a o name h
    → o.methods ≡ before ++ (f ∷ after)
    → NoneTakes name before
    → takes_call name f ≡ true
    → process_obj_msg in_msgbuf P m h
      ≡ some (
          given_back in_msgbuf h (
            answered m (
              call_handler P f.handler a o
                (request_of o m)
                name
                m.payload
                (taken_buf in_msgbuf h))))
unfolding run_method complete_deferred_request
process_obj_msg-first P in_msgbuf m a o name h before f after c e n t =
    process_obj_msg-method P in_msgbuf m a o name h f c
      (ap (find_method name) e ∙ find_method-first name before f after n t)
