-- ===== src/Ubusd/Proto/Call/Notified.antt =====
-- A notification goes to the subscribers that its sender is told of.
use libubus_jni.Prelude.{ℕ, ◌≡◌, refl, ap, ◌∙◌, false, List, [], ◌∷◌, none, some, ◌>>=◌}
use libubus_jni.Libubox.Text.{CString}
use libubus_jni.Libubox.Tree.{find, id_ord}
use libubus_jni.Ubusd.Message.{
  MsgBuf, MsgType, Message, built, put_objid, put_method, put_subscribers, put_status,
}
use libubus_jni.Ubusd.State.{Daemon, Object, Client, Effect, find_object, add_log, sent, freed}
use libubus_jni.Ubusd.Proto.Reply.{consumed}
use libubus_jni.Ubusd.Proto.Call.{
  handle_notify, notify_object, notify_subscribers, forward_invoke, data_field, is_set,
}
use libubus_jni.Ubusd.Proto.Call.Routing.{send_to_lem, same_client_refl}

-- These subscribers belong to these clients, which are connected.
abbrev pub OwnedBy : List ℕ → List ℕ → Daemon → Type 0
OwnedBy [] [] d = Unit
OwnedBy [] (c ∷ cs) d = ⊥
OwnedBy (s ∷ ss) [] d = ⊥
OwnedBy (s ∷ ss) (c ∷ cs) d =
    ((o : Object) × (x : Client) × (find_object s d ≡ some o)
      × (o.client ≡ some c)
      × (find c d.clients ≡ some x))
    × OwnedBy ss cs d

-- The notification as a subscriber gets it from client `cl`, where a reply is wanted.
abbrev pub notice : ℕ → CString → MsgBuf → ℕ → Message
notice cl method ub s = record {
  msg_type = MsgType.invoke;
  seq = ub.seq;
  peer = cl;
  fd = none;
  body = built (put_objid s ∷ put_method method ∷ data_field ub.attrs.payload);
}

-- One to each subscriber by way of its client, in their order, behind what is in the log.
abbrev pub add_notices : ℕ → CString → MsgBuf → List ℕ → List ℕ → List Effect → List Effect
add_notices cl method ub [] cs log = log
add_notices cl method ub (s ∷ ss) [] log = log
add_notices cl method ub (s ∷ ss) (c ∷ cs) log =
    add_notices cl method ub ss cs (sent c (notice cl method ub s) ∷ log)

-- The status that the sender gets.
abbrev pub listing : ℕ → MsgBuf → List ℕ → Message
listing id ub subscribers = record {
  msg_type = MsgType.status;
  seq = ub.seq;
  peer = ub.peer;
  fd = none;
  body = built (put_objid id ∷ put_subscribers subscribers ∷ put_status 0 ∷ []);
}

OwnedBy-add_log :
    (ss cs : List ℕ) (e : Effect) (d : Daemon) → OwnedBy ss cs d → OwnedBy ss cs (add_log e d)
unfolding add_log find_object
OwnedBy-add_log [] [] e d h = tt
OwnedBy-add_log [] (c ∷ cs) e d h = h
OwnedBy-add_log (s ∷ ss) [] e d h = h
OwnedBy-add_log (s ∷ ss) (c ∷ cs) e d h = (h.0, OwnedBy-add_log ss cs e d h.1)

forward_invoke-sent :
    (cl : ℕ) (method : CString) (ub : MsgBuf) (s c : ℕ) (d : Daemon) (o : Object) {x : Client}
    → find_object s d ≡ some o
    → o.client ≡ some c
    → find c d.clients ≡ some x
    → forward_invoke s method
        (record ub { peer = cl })
        (put_objid s ∷ put_method method ∷ data_field ub.attrs.payload)
        d
      ≡ some (add_log (sent c (notice cl method ub s)) d)
unfolding forward_invoke
forward_invoke-sent cl method ub s c d o e e1 e2 =
    rw (e, forward_invoke) (rw e1 (send_to_lem c (notice cl method ub s) d e2))

notify_subscribers-log :
    (cl : ℕ) (method : CString) (ub : MsgBuf) (ss cs : List ℕ) (d : Daemon)
    → OwnedBy ss cs d
    → notify_subscribers method (record ub { peer = cl }) false ss d
      ≡ some (record d { log = add_notices cl method ub ss cs d.log })
unfolding notify_subscribers
notify_subscribers-log cl method ub [] [] d h = refl
notify_subscribers-log cl method ub [] (c ∷ cs) d h = absurd h
notify_subscribers-log cl method ub (s ∷ ss) [] d h = absurd h
notify_subscribers-log cl method ub (s ∷ ss) (c ∷ cs) d h =
    let (o, x, e, e1, e2) = h.0 in
    ap (λ r. r >>= notify_subscribers method (record ub { peer = cl }) false ss)
      (forward_invoke-sent cl method ub s c d o e e1 e2)
    ∙ notify_subscribers-log cl method ub ss cs (add_log (sent c (notice cl method ub s)) d)
        (OwnedBy-add_log ss cs _ d h.1)

handle_notify-found :
    (cl id : ℕ) (method : CString) (ub : MsgBuf) (d : Daemon) (o : Object)
    → ub.attrs.method ≡ some method
    → ub.attrs.objid ≡ some id
    → find_object id d ≡ some o
    → o.client ≡ some cl
    → handle_notify cl ub d ≡ notify_object cl ub id method o d
unfolding handle_notify
handle_notify-found cl id method ub d o hm hi ho hc =
    rw (hm, handle_notify) (rw hi (rw ho (rw (hc, same_client_refl cl) refl)))

notify_object-listed :
    (cl id : ℕ) (method : CString) (ub : MsgBuf) (d : Daemon) (o : Object) (cs : List ℕ)
    {y : Client}
    → is_set ub.attrs.no_reply ≡ false
    → find cl d.clients ≡ some y
    → OwnedBy o.subscribers cs d
    → notify_object cl ub id method o d
      ≡ some (
        consumed,
        record d {
          log =
              freed
              ∷ add_notices cl method ub o.subscribers cs
                  (sent cl (listing id ub o.subscribers) ∷ d.log);
        },
      )
unfolding notify_object add_log
notify_object-listed cl id method ub d o cs hn hy h =
    let d1 : Daemon = add_log (sent cl (listing id ub o.subscribers)) d in
    let status_sent = send_to_lem cl (listing id ub o.subscribers) d hy in
    let all =
      notify_subscribers-log cl method ub o.subscribers cs d1
        (OwnedBy-add_log o.subscribers cs _ d h) in
    rw (notify_object, hn) (rw status_sent (rw all refl))

-- The notifier gets the list of the subscribers, and then each of them one notification, in order.
pub handle_notify-listed :
    (cl id : ℕ) (method : CString) (ub : MsgBuf) (d : Daemon) (o : Object) (cs : List ℕ)
    {y : Client}
    → ub.attrs.method ≡ some method
    → ub.attrs.objid ≡ some id
    → ub.attrs.no_reply ≡ none
    → find_object id d ≡ some o
    → o.client ≡ some cl
    → find cl d.clients ≡ some y
    → OwnedBy o.subscribers cs d
    → handle_notify cl ub d
      ≡ some (
        consumed,
        record d {
          log =
              freed
              ∷ add_notices cl method ub o.subscribers cs
                  (sent cl (listing id ub o.subscribers) ∷ d.log);
        },
      )
handle_notify-listed cl id method ub d o cs hm hi hn ho hc hy h =
    handle_notify-found cl id method ub d o hm hi ho hc
    ∙ notify_object-listed cl id method ub d o cs (ap is_set hn) hy h
