-- ===== src/Ubusd/Proto/Call/Routing.antt =====
-- Calls and their responses find the way between two clients.
use libubus_jni.Prelude.{ℕ, ◌≡◌, refl, true, ◌∷◌, Option, none, some, arith, ==_refl, ap}
use libubus_jni.Libubox.Text.{CString}
use libubus_jni.Libubox.Tree.{find, id_ord}
use libubus_jni.Ubusd.Message.{
  Blob, Blobmsg, MsgBuf, MsgType, Message, built, received, put_objid, put_method,
}
use libubus_jni.Ubusd.State.{
  Daemon, Object, Client, find_object, same_client, send_to, add_log, sent, freed,
}
use libubus_jni.Ubusd.Proto.Reply.{consumed}
use libubus_jni.Ubusd.Proto.Call.{
  handle_invoke, invoke_object, handle_response, data_field, has_payload,
}

-- The call as the object's client gets it, and the response as the caller gets it.
abbrev pub call_message : ℕ → ℕ → CString → MsgBuf → Message
call_message cl id method ub = record {
  msg_type = MsgType.invoke;
  seq = ub.seq;
  peer = cl;
  fd = none;
  body = built (put_objid id ∷ put_method method ∷ data_field ub.attrs.payload);
}

abbrev pub response_message : ℕ → MsgBuf → Message
response_message id ub = record {
  msg_type = ub.msg_type;
  seq = ub.seq;
  peer = id;
  fd = ub.fd;
  body = received ub.attrs;
}

pub send_to_lem :
    (c : ℕ) {x : Client} (m : Message) (d : Daemon)
    → find c d.clients ≡ some x
    → send_to (some c) m d ≡ some (add_log (sent c m) d)
unfolding send_to
send_to_lem c m d h = rw (h, send_to)

pub same_client_refl : (c : ℕ) → same_client (some c) (some c) ≡ true
unfolding same_client
same_client_refl c = ==_refl c

-- A call of a method of another client's object goes to that client, with the caller's id as its
-- peer, and the caller gets no status yet.
pub handle_invoke-sent :
    (B : Blobmsg) (cl c id : ℕ) (method : CString) (ub : MsgBuf) (d : Daemon) (o : Object)
    {x : Client}
    → ub.attrs.method ≡ some method
    → ub.attrs.objid ≡ some id
    → find_object id d ≡ some o
    → o.client ≡ some c
    → find c d.clients ≡ some x
    → handle_invoke B cl ub d
      ≡ some (consumed, add_log freed (add_log (sent c (call_message cl id method ub)) d))
unfolding handle_invoke
handle_invoke-sent B cl c id method ub d o hm hi ho hc hx =
    rw (hm, handle_invoke)
      (rw hi (rw ho (rw (hc, invoke_object) (rw ho (rw hc (rw (send_to_lem c _ d hx)))))))

same_client_iff : (o c : Option ℕ) → same_client o c ≡ true → o ≡ c
unfolding same_client
same_client_iff none none h = refl
same_client_iff none (some c) h = ground arith
same_client_iff (some b) none h = ground arith
same_client_iff (some b) (some c) h = ground arith

-- A response with its attribute that the object's client sends goes to the client that its peer
-- names, with the object's id as its peer.
pub handle_response-sent :
    (c id : ℕ) (ub : MsgBuf) (d : Daemon) (o : Object) {x : Client}
    → has_payload ub.msg_type ub.attrs ≡ true
    → ub.attrs.objid ≡ some id
    → find_object id d ≡ some o
    → o.client ≡ some c
    → find ub.peer d.clients ≡ some x
    → handle_response c ub d
      ≡ some (consumed, add_log freed (add_log (sent ub.peer (response_message id ub)) d))
unfolding handle_response
handle_response-sent c id ub d o hp hi ho hc hx =
    ground (arith, same_client_refl c, send_to_lem ub.peer (response_message id ub) d hx)

has_payload-data :
    (ub : MsgBuf) {b : Blob}
    → ub.msg_type ≡ MsgType.data_reply
    → ub.attrs.payload ≡ some b
    → has_payload ub.msg_type ub.attrs ≡ true
has_payload-data ub ht hp = ground arith

-- A client calls a method of an object of a connected client, which answers with a DATA message
-- that names the object and has the call's peer and sequence number: the call goes to the owner,
-- and the response reaches the caller with the object's id as its peer and the sequence number of
-- the caller's own request.
pub invoke_response :
    (B : Blobmsg) (cl c id : ℕ) (method : CString) (ub reply : MsgBuf) (d : Daemon) (o : Object)
    {b : Blob} {x y : Client}
    → ub.attrs.method ≡ some method
    → ub.attrs.objid ≡ some id
    → find_object id d ≡ some o
    → o.client ≡ some c
    → find c d.clients ≡ some x
    → find cl d.clients ≡ some y
    → reply.msg_type ≡ MsgType.data_reply
    → reply.attrs.objid ≡ some id
    → reply.attrs.payload ≡ some b
    → reply.peer ≡ (call_message cl id method ub).peer
    → reply.seq ≡ (call_message cl id method ub).seq
    → (d1 d2 : Daemon) × (m : Message) × (handle_invoke B cl ub d ≡ some (consumed, d1))
      × (handle_response c reply d1 ≡ some (consumed, d2))
      × (d2.log ≡ freed ∷ sent cl m ∷ freed ∷ sent c (call_message cl id method ub) ∷ d.log)
      × (m.seq ≡ ub.seq)
      × (m.peer ≡ id)
      × (m.body ≡ received reply.attrs)
unfolding add_log find_object
invoke_response B cl c id method ub reply d o {y = y} hm hi ho hc hx hy ht ri rp pe se = (
  _,
  _,
  response_message id reply,
  handle_invoke-sent B cl c id method ub d o hm hi ho hc hx,
  handle_response-sent c id reply _ o {x = y} (has_payload-data reply ht rp) ri ho hc (rw pe hy),
  ap
      (λ p.
        freed
        ∷ sent p (response_message id reply)
        ∷ freed
        ∷ sent c (call_message cl id method ub)
        ∷ d.log)
      pe,
  se,
  refl,
  refl,
)
