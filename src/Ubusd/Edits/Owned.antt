-- ===== src/Ubusd/Edits/Owned.antt =====
-- The handlers that work on the objects of the sender (ubus/ubusd_proto.c: adding and removing an
-- object, watching, answering a call), as sequences of single changes.
use libubus_jni.Prelude.{
  ℕ, refl, ◌∷◌, Option, none, some, Ensures, ensured, >>=-Ensures, Ensures-any, if-Ensures,
  Option-cases, inl, inr, ◌>>=◌, ◌&&◌,
}
use libubus_jni.Libubox.Tree.{find, id_ord, string_ord}
use libubus_jni.Ubusd.Message.{Blobmsg, MsgBuf, MsgType, Field, Status}
use libubus_jni.Ubusd.State.{Daemon, find_object, same_client, add_log, freed}
use libubus_jni.Ubusd.Proto.Reply.{Ret, status, consumed, send_msg_from_blob, send_pong}
use libubus_jni.Ubusd.Proto.Objects.{
  handle_remove_object, handle_add_object, last_type, signature_type,
}
use libubus_jni.Ubusd.Proto.Call.{drop_response, pass_response, handle_response, has_payload}
use libubus_jni.Ubusd.Proto.Watch.{add_watch, remove_watch, with_watch, has_target}
use libubus_jni.Ubusd.Edits.{Edits, done}
use libubus_jni.Ubusd.Edits.Events.{Edits-after, send_to-Edits}
use libubus_jni.Ubusd.Edits.Objects.{
  create_object-Edits, free_object-Edits, subscribe-Edits, unsubscribe-Edits,
}
use libubus_jni.Ubusd.Edits.Outcome.{Outcome, ending, send_msg-Edits}

pub send_pong-Outcome :
    (cl : ℕ) (ub : MsgBuf) (d : Daemon) → Ensures (Outcome d) (send_pong cl ub d)
unfolding send_pong
send_pong-Outcome cl ub d = ending Status.ok (send_to-Edits _ _ d)

module _ (cl : ℕ) (ub : MsgBuf) (d : Daemon) where
  pub handle_remove_object-Outcome : Ensures (Outcome d) (handle_remove_object cl ub d)
  unfolding handle_remove_object
  handle_remove_object-Outcome = elim (Option-cases ub.attrs.objid) [
    | inl e ↦ rw (e, handle_remove_object) (ensured done)
    | inr (id, e) ↦
        rw (e, handle_remove_object)
          (elim (Option-cases (find_object id d)) [
            | inl n ↦ rw n (ensured done)
            | inr (o, f) ↦ rw f (
                if-Ensures (same_client o.client (some cl))
                  (>>=-Ensures (Ensures-any (last_type o.obj_type d)) λ types _.
                    >>=-Ensures (free_object-Edits id d)
                      λ d1 s. ending Status.ok (Edits-after s (send_msg-Edits (some cl) ub _ _ d1)))
                  (ensured done))
          ])
  ]

  pub handle_add_object-Outcome : (B : Blobmsg) → Ensures (Outcome d) (handle_add_object B cl ub d)
  unfolding handle_add_object
  handle_add_object-Outcome B =
      >>=-Ensures (create_object-Edits B cl ub.attrs d) λ r s. go r.0 r.1 s
    where
      go :
          (obj : Option ℕ) (d1 : Daemon)
          → Edits d d1
          → Ensures {A = Ret × Daemon} (Outcome d) (elim obj [
            | none ↦ some (status Status.invalid_argument, d1)
            | some id ↦ do
              o ← find_object id d1
              types ← signature_type ub.attrs.signature o.obj_type
              d2 ←
                  send_msg_from_blob (some cl) ub MsgType.data_reply (Field.put_objid id ∷ types) d1
              some (status Status.ok, d2)
          ])
      go none d1 s = ensured s
      go (some id) d1 s = >>=-Ensures (Ensures-any (find_object id d1)) λ o _.
          >>=-Ensures (Ensures-any (signature_type ub.attrs.signature o.obj_type))
            λ types _. ending Status.ok (Edits-after s (send_msg-Edits (some cl) ub _ _ d1))

  pub add_watch-Outcome : (id target : ℕ) → Ensures (Outcome d) (add_watch cl id target d)
  unfolding add_watch
  add_watch-Outcome id target = elim (Option-cases (find_object id d)) [
    | inl e ↦ rw (e, add_watch) (ensured done)
    | inr (o, e) ↦
        rw (e, add_watch)
          (if-Ensures (same_client (some cl) o.client)
            (elim (Option-cases (find_object target d)) [
              | inl n ↦ rw n (ensured done)
              | inr (t, f) ↦ rw f (
                  if-Ensures (same_client (some cl) t.client) (ensured done)
                    (ending Status.ok (subscribe-Edits id target d)))
            ])
            (ensured done))
  ]

  pub remove_watch-Outcome : (id target : ℕ) → Ensures (Outcome d) (remove_watch cl id target d)
  unfolding remove_watch
  remove_watch-Outcome id target = elim (Option-cases (find_object id d)) [
    | inl e ↦ rw (e, remove_watch) (ensured done)
    | inr (o, e) ↦
        rw (e, remove_watch)
          (if-Ensures (same_client (some cl) o.client)
            (if-Ensures (has_target target o.target_list)
              (ending Status.ok (unsubscribe-Edits id target d)) (ensured done))
            (ensured done))
  ]

  pub with_watch-Outcome :
      (f : ℕ → ℕ → Daemon → Option (Ret × Daemon))
      → ((id target : ℕ) → Ensures (Outcome d) (f id target d))
      → Ensures (Outcome d) (with_watch ub.attrs f d)
  unfolding with_watch
  with_watch-Outcome f h = elim (Option-cases ub.attrs.objid) [
    | inl e ↦ rw (e, with_watch) (ensured done)
    | inr (id, e) ↦
        rw (e, with_watch)
          (elim (Option-cases ub.attrs.target) [
            | inl n ↦ rw n (ensured done)
            | inr (t, g) ↦ rw g (h id t)
          ])
  ]

  pub handle_response-Outcome : Ensures (Outcome d) (handle_response cl ub d)
  unfolding handle_response drop_response
  handle_response-Outcome = elim (Option-cases ub.attrs.objid) [
    | inl e ↦ rw (e, handle_response) drop
    | inr (id, e) ↦
        rw (e, handle_response)
          (elim (Option-cases (find_object id d)) [
            | inl n ↦ rw n drop
            | inr (o, f) ↦ rw f (
                if-Ensures (has_payload ub.msg_type ub.attrs && same_client (some cl) o.client)
                  (pass id) drop)
          ])
  ]
    where
      drop : Ensures {A = Ret × Daemon} (Outcome d) (some (consumed, add_log freed d))
      drop = ensured (d, done, refl)

      pass : (id : ℕ) → Ensures (Outcome d) (pass_response id ub d)
      pass id = elim (Option-cases (find ub.peer d.clients)) [
        | inl e ↦ rw (e, pass_response) drop
        | inr (c, e) ↦
            rw (e, pass_response)
              (>>=-Ensures (send_to-Edits (some ub.peer) _ d) λ d1 s. ensured (d1, s, refl))
      ]
