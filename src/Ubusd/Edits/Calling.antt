-- ===== src/Ubusd/Edits/Calling.antt =====
-- The handlers that look objects up and call them (ubus/ubusd_proto.c), as sequences of single
-- changes.
use libubus_jni.Prelude.{
  ℕ, refl, Bool, true, false, List, [], ◌∷◌, none, some, Ensures, fault, ensured, >>=-Ensures,
  Ensures-any, if-Ensures, Option-cases, inl, inr, not, ◌>>=◌, ◌==◌,
}
use libubus_jni.Libubox.Text.{CString, last_or, cut_last, strncmp_eq, cut_length}
use libubus_jni.Libubox.Tree.{find, find_ge, id_ord, string_ord}
use libubus_jni.Ubusd.Message.{Text, Blobmsg, MsgBuf, MsgType, Field, Status}
use libubus_jni.Ubusd.State.{Daemon, Object, find_object, same_client}
use libubus_jni.Ubusd.Proto.Reply.{Ret, status}
use libubus_jni.Ubusd.Proto.Lookup.{send_obj, send_objs, send_matching, handle_lookup}
use libubus_jni.Ubusd.Proto.Call.{
  forward_invoke, invoke_object, handle_invoke, notify_subscribers, notify_object, handle_notify,
  is_set,
}
use libubus_jni.Ubusd.Edits.{Edits, done, Edits-trans}
use libubus_jni.Ubusd.Edits.Events.{Edits-bind, event_recv-Edits}
use libubus_jni.Ubusd.Edits.Outcome.{Outcome, ending, found_or-Outcome, send_msg-Edits}

forward_invoke-Edits :
    (id : ℕ) (method : CString) (ub : MsgBuf) (fields : List Field) (d : Daemon)
    → Ensures (Edits d) (forward_invoke id method ub fields d)
unfolding forward_invoke
forward_invoke-Edits id method ub fields d =
    >>=-Ensures (Ensures-any (find_object id d))
      λ o _. send_msg-Edits o.client ub MsgType.invoke fields d

notify_subscribers-Edits :
    (method : CString) (ub : MsgBuf) (no_reply : Bool) (ss : List ℕ) (d : Daemon)
    → Ensures (Edits d) (notify_subscribers method ub no_reply ss d)
unfolding notify_subscribers
notify_subscribers-Edits method ub no_reply [] d = ensured done
notify_subscribers-Edits method ub no_reply (s ∷ ss) d =
    Edits-bind (λ x. x) (forward_invoke-Edits s method ub _ d)
      (notify_subscribers-Edits method ub no_reply ss)

module _ (cl : ℕ) (ub : MsgBuf) where
  send_obj-Edits : (id : ℕ) (d : Daemon) → Ensures (Edits d) (send_obj cl ub id d)
  unfolding send_obj
  send_obj-Edits id d = >>=-Ensures (Ensures-any (find_object id d)) λ o _.
      >>=-Ensures (Ensures-any o.obj_type) λ t _.
        >>=-Ensures (Ensures-any (find t d.obj_types))
          λ ty _. send_msg-Edits (some cl) ub MsgType.data_reply _ d

  send_objs-Edits : (t : List (CString × ℕ)) (d : Daemon) → Ensures (Edits d) (send_objs cl ub t d)
  unfolding send_objs
  send_objs-Edits [] d = ensured done
  send_objs-Edits ((p, id) ∷ t) d = Edits-bind (λ x. x) (send_obj-Edits id d) (send_objs-Edits t)

  send_matching-Edits :
      (s : CString) (len : ℕ) (found : Bool) (t : List (CString × ℕ)) (d : Daemon)
      → Ensures (λ r. Edits d r.1) (send_matching cl ub s len found t d)
  unfolding send_matching
  send_matching-Edits s len found [] d = ensured done
  send_matching-Edits s len found ((p, id) ∷ t) d =
      if-Ensures (strncmp_eq s p len)
        (Edits-bind (λ r. r.1) (send_obj-Edits id d) (send_matching-Edits s len true t))
        (ensured done)

  module _ (d : Daemon) where
    pub handle_lookup-Outcome : Ensures (Outcome d) (handle_lookup cl ub d)
    unfolding handle_lookup
    handle_lookup-Outcome = elim (Option-cases ub.attrs.objpath) [
      | inl e ↦ rw (e, handle_lookup) (ending Status.ok (send_objs-Edits d.path d))
      | inr (p, e) ↦
          rw (e, handle_lookup)
            (if-Ensures (not (last_or p.before p.chars == b'*')) (exact p) (
              found_or-Outcome (
                send_matching-Edits (cut_last p.chars) (cut_length p.chars) false
                  (find_ge (cut_last p.chars) d.path) d)))
    ]
      where
        exact :
            (p : Text)
            → Ensures {A = Ret × Daemon} (Outcome d) (elim (find p.chars d.path) [
              | none ↦ some (status Status.not_found, d)
              | some id ↦ send_obj cl ub id d >>= λ d1. some (status Status.ok, d1)
            ])
        exact p = elim (Option-cases (find p.chars d.path)) [
          | inl n ↦ rw n (ensured done)
          | inr (id, f) ↦ rw f (ending Status.ok (send_obj-Edits id d))
        ]

    invoke_object-Outcome :
        (B : Blobmsg) (id : ℕ) (method : CString) (o : Object)
        → Ensures (Outcome d) (invoke_object B cl ub id method o d)
    unfolding invoke_object
    invoke_object-Outcome B id method o = elim (Option-cases o.client) [
      | inl e ↦
          rw (e, invoke_object)
            (if-Ensures o.recv_msg
              (>>=-Ensures (event_recv-Edits B cl method ub.attrs.payload d) λ r s. ensured s)
              fault)
      | inr (c, e) ↦
          rw (e, invoke_object)
            (>>=-Ensures (forward_invoke-Edits id method (record ub { peer = cl }) _ d)
              λ d1 s. ensured (d1, s, refl))
    ]

    notify_object-Outcome :
        (id : ℕ) (method : CString) (o : Object)
        → Ensures (Outcome d) (notify_object cl ub id method o d)
    unfolding notify_object
    notify_object-Outcome id method o =
        >>=-Ensures
          (if-Ensures (is_set ub.attrs.no_reply) (ensured done) (send_msg-Edits (some cl) ub _ _ d))
          λ d1 s.
            >>=-Ensures
              (notify_subscribers-Edits method (record ub { peer = cl }) _ o.subscribers d1)
              λ d2 r. ensured (d2, Edits-trans s r, refl)

    pub handle_invoke-Outcome : (B : Blobmsg) → Ensures (Outcome d) (handle_invoke B cl ub d)
    unfolding handle_invoke
    handle_invoke-Outcome B = elim (Option-cases ub.attrs.method) [
      | inl e ↦ rw (e, handle_invoke) (ensured done)
      | inr (m, e) ↦
          rw (e, handle_invoke)
            (elim (Option-cases ub.attrs.objid) [
              | inl n ↦ rw n (ensured done)
              | inr (id, f) ↦ rw f (elim (Option-cases (find_object id d)) [
                | inl n ↦ rw n (ensured done)
                | inr (o, g) ↦ rw g (invoke_object-Outcome B id m o)
              ])
            ])
    ]

    pub handle_notify-Outcome : Ensures (Outcome d) (handle_notify cl ub d)
    unfolding handle_notify
    handle_notify-Outcome = elim (Option-cases ub.attrs.method) [
      | inl e ↦ rw (e, handle_notify) (ensured done)
      | inr (m, e) ↦
          rw (e, handle_notify)
            (elim (Option-cases ub.attrs.objid) [
              | inl n ↦ rw n (ensured done)
              | inr (id, f) ↦ rw f (elim (Option-cases (find_object id d)) [
                | inl n ↦ rw n (ensured done)
                | inr (o, g) ↦ rw g (
                    if-Ensures (same_client o.client (some cl)) (notify_object-Outcome id m o)
                      (ensured done))
              ])
            ])
    ]
