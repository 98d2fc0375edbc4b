-- ===== src/Libubus/Object/Answered.antt =====
-- A call and its status between two clients (ubus/libubus-obj.c, ubus/ubusd_proto.c).
use libubus_jni.Prelude.{
  ℕ, ◌≡◌, refl, Bool, ap, ◌∙◌, arith, true, [], ◌∷◌, none, some, if◌then◌else◌,
}
use libubus_jni.Libubox.Text.{CString}
use libubus_jni.Libubox.Tree.{find, id_ord}
use libubus_jni.Ubusd.Message.{
  Attrs, Blobmsg, Body, MsgBuf, MsgType, Message, built, received, put_objid, put_status,
}
use libubus_jni.Ubusd.State.{
  Daemon, Client, find_object, same_client, send_to, add_log, sent, freed,
}
use libubus_jni.Ubusd.State
use libubus_jni.Ubusd.Proto.Reply.{consumed}
use libubus_jni.Ubusd.Proto.Call.{handle_invoke, handle_response, drop_response, has_payload}
use libubus_jni.Ubusd.Proto.Call.Routing.{
  call_message, response_message, handle_invoke-sent, handle_response-sent,
}
use libubus_jni.Libubus.Object.{
  Method, Object, ObjMsg, Host, Program, object, status_of, no_request, find_method, call_handler,
  is_set, request_of, process_invoke, process_obj_msg, complete_deferred_request, run_method,
}
use libubus_jni.Libubus.Object.Dispatch.{
  Calls, process_obj_msg-method, answered, taken_buf, given_back,
}

-- A message that ubusd has read has these fields among its attributes.
abbrev pub HasFields : Body → Attrs → Type 0
HasFields (built (put_status s ∷ put_objid i ∷ [])) a = (a.status ≡ some s) × (a.objid ≡ some i)
HasFields _ a = Unit

-- ubusd has read what a client sent.
pub record Carries (x : Message) (ub : MsgBuf) : Type 0 where
  pub same_type : ub.msg_type ≡ x.msg_type
  pub same_seq : ub.seq ≡ x.seq
  pub same_peer : ub.peer ≡ x.peer
  pub fields : HasFields x.body ub.attrs

-- A call of an object that the client does not have, in the buffer of the connection or not, is
-- answered with a status for peer 0, request 0 and object 0, and ubusd, while it has no object 0,
-- sends nothing when it gets that status: the caller gets no answer.
pub unknown_object-dropped :
    (P : Program) (in_msgbuf : Bool) (m : ObjMsg) (id : ℕ) (h : Host) (c : ℕ) (reply : MsgBuf)
    (d : Daemon)
    → m.msg_type ≡ MsgType.invoke
    → m.objid ≡ some id
    → find id h.objects ≡ none
    → find_object 0 d ≡ none
    → Carries (status_of no_request 4) reply
    → (process_obj_msg in_msgbuf P m h
        ≡ some (
            given_back in_msgbuf h (record (taken_buf in_msgbuf h) {
              sent = status_of no_request 4 ∷ (taken_buf in_msgbuf h).sent;
            })))
      × (handle_response c reply d ≡ some (consumed, add_log freed d))
unfolding process_obj_msg process_invoke complete_deferred_request handle_response drop_response
unknown_object-dropped P in_msgbuf m id h c reply d t i n z k =
    (rw (i, t, n) refl, rw (k.fields.1, handle_response) (rw z refl))

has_payload-status :
    (ub : MsgBuf) (ret : ℕ)
    → ub.msg_type ≡ MsgType.status
    → ub.attrs.status ≡ some ret
    → has_payload ub.msg_type ub.attrs ≡ true
has_payload-status ub ret t e = ground arith

-- The call of `ub` that ubusd has sent to the client as `m` (its attributes read by `ubus_parse_msg`).
pub record IsCall (cl id : ℕ) (name : CString) (ub : MsgBuf) (m : ObjMsg) : Type 0 where
  pub invokes : m.msg_type ≡ MsgType.invoke
  pub same_seq : m.seq ≡ (call_message cl id name ub).seq
  pub same_peer : m.peer ≡ (call_message cl id name ub).peer
  pub names_object : m.objid ≡ some id
  pub names_method : m.method ≡ some name
  pub reply : m.no_reply ≡ none

answered-status :
    (m : ObjMsg) (p : Object) (ret : ℕ) (h1 : Host)
    → m.no_reply ≡ none
    → answered m (ret, request_of p m, h1)
      ≡ record h1 { sent = status_of (request_of p m) ret ∷ h1.sent }
answered-status m p ret h1 e =
    ap (λ n. if is_set n then h1 else record h1 { sent = status_of (request_of p m) ret ∷ h1.sent })
      e

-- A client calls a method of an object of a connected client without asking for no reply; the
-- owner gets the call as ubusd sends it, in the buffer of the connection or not, has the object
-- with such a method in its memory, and the method leaves the data of the request alone: the owner
-- sends the status of the method and gives the buffer back, ubusd passes on what it reads of the
-- status, and the caller gets it with the sequence number of its own request and the object as the
-- peer.
pub call_status :
    (B : Blobmsg) (P : Program) (in_msgbuf : Bool) (cl c id a ret : ℕ) (name : CString)
    (ub : MsgBuf) (m : ObjMsg) (reply : MsgBuf) (d : Daemon) (o : State.Object) (h h1 : Host)
    (p : Object) (f : Method) {x y : Client}
    → ub.attrs.method ≡ some name
    → ub.attrs.objid ≡ some id
    → find_object id d ≡ some o
    → o.client ≡ some c
    → find c d.clients ≡ some x
    → find cl d.clients ≡ some y
    → IsCall cl id name ub m
    → find id h.objects ≡ some a
    → object a h ≡ some p
    → p.id ≡ id
    → find_method name p.methods ≡ some f
    → call_handler P f.handler a p (request_of p m) name m.payload (taken_buf in_msgbuf h)
      ≡ (ret, request_of p m, h1)
    → Carries (status_of (request_of p m) ret) reply
    → (d1 d2 : Daemon) × (t : Message) × (handle_invoke B cl ub d ≡ some (consumed, d1))
      × (process_obj_msg in_msgbuf P m h
          ≡ some (
              given_back in_msgbuf h
                (record h1 { sent = status_of (request_of p m) ret ∷ h1.sent })))
      × (handle_response c reply d1 ≡ some (consumed, d2))
      × (d2.log ≡ freed ∷ sent cl t ∷ freed ∷ sent c (call_message cl id name ub) ∷ d.log)
      × (t.seq ≡ ub.seq)
      × (t.peer ≡ id)
      × (t.body ≡ received reply.attrs)
      × (reply.attrs.status ≡ some ret)
unfolding run_method complete_deferred_request add_log find_object
call_status B P in_msgbuf cl c id a ret name ub m reply d o h h1 p f {y = y} hm hi ho hc hx hy call
      hr hp hid hf e k =
    let peer : reply.peer ≡ cl = k.same_peer ∙ call.same_peer in
    let calls : Calls m a p name h = record {
      invokes = call.invokes;
      id = id;
      names_object = call.names_object;
      registered = hr;
      in_memory = hp;
      names_method = call.names_method;
    } in
    (
      _,
      _,
      response_message id reply,
      handle_invoke-sent B cl c id name ub d o hm hi ho hc hx,
      process_obj_msg-method P in_msgbuf m a p name h f calls hf
          ∙ ap (λ r. some (given_back in_msgbuf h (answered m r))) e
          ∙ ap (λ x. some (given_back in_msgbuf h x)) (answered-status m p ret h1 call.reply),
      handle_response-sent c id reply _ o {x = y}
          (has_payload-status reply ret k.same_type k.fields.0) (k.fields.1 ∙ ap some hid) ho hc
          (rw peer hy),
      ap
          (λ q.
            freed
            ∷ sent q (response_message id reply)
            ∷ freed
            ∷ sent c (call_message cl id name ub)
            ∷ d.log)
          peer,
      k.same_seq ∙ call.same_seq,
      refl,
      refl,
      k.fields.0,
    )
