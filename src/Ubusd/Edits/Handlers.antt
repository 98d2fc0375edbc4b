-- ===== src/Ubusd/Edits/Handlers.antt =====
-- A whole received message (ubus/ubusd_proto.c), as a sequence of single changes.
use libubus_jni.Prelude.{
  ℕ, Option, none, some, Ensures, ensured, >>=-Ensures, Ensures-mono, inl, inr, Bool-cases,
}
use libubus_jni.Libubox.Tree.{id_ord, string_ord}
use libubus_jni.Ubusd.Message.{Blobmsg, MsgBuf, MsgType}
use libubus_jni.Ubusd.State.{Daemon, add_log, freed}
use libubus_jni.Ubusd.Proto.Reply.{Ret, status, consumed}
use libubus_jni.Ubusd.Proto.Watch.{add_watch, remove_watch, handle_add_watch, handle_remove_watch}
use libubus_jni.Ubusd.Proto.Receive.{handle, close_fd, strip_fd, finish, receive_message, keeps_fd}
use libubus_jni.Ubusd.Edits.{Edits, done, next, Edits-trans, close}
use libubus_jni.Ubusd.Edits.Events.{send_to-Edits}
use libubus_jni.Ubusd.Edits.Outcome.{Outcome}
use libubus_jni.Ubusd.Edits.Owned.{
  send_pong-Outcome, handle_remove_object-Outcome, handle_add_object-Outcome, add_watch-Outcome,
  remove_watch-Outcome, with_watch-Outcome, handle_response-Outcome,
}
use libubus_jni.Ubusd.Edits.Calling.{
  handle_lookup-Outcome, handle_invoke-Outcome, handle_notify-Outcome,
}

pub handle-Outcome :
    (cl : ℕ) (ub : MsgBuf) (d : Daemon) (B : Blobmsg) (t : MsgType)
    → Ensures (Outcome d) (handle B t cl ub d)
unfolding handle handle_add_watch handle_remove_watch
handle-Outcome cl ub d B MsgType.ping = send_pong-Outcome cl ub d
handle-Outcome cl ub d B MsgType.add_object = handle_add_object-Outcome cl ub d B
handle-Outcome cl ub d B MsgType.remove_object = handle_remove_object-Outcome cl ub d
handle-Outcome cl ub d B MsgType.lookup = handle_lookup-Outcome cl ub d
handle-Outcome cl ub d B MsgType.invoke = handle_invoke-Outcome cl ub d B
handle-Outcome cl ub d B MsgType.status = handle_response-Outcome cl ub d
handle-Outcome cl ub d B MsgType.data_reply = handle_response-Outcome cl ub d
handle-Outcome cl ub d B MsgType.subscribe =
    with_watch-Outcome cl ub d (add_watch cl) (add_watch-Outcome cl ub d)
handle-Outcome cl ub d B MsgType.unsubscribe =
    with_watch-Outcome cl ub d (remove_watch cl) (remove_watch-Outcome cl ub d)
handle-Outcome cl ub d B MsgType.notify = handle_notify-Outcome cl ub d
handle-Outcome cl ub d B MsgType.hello = ensured done
handle-Outcome cl ub d B (MsgType.unknown n) = ensured done

-- A whole message: changes, the message freed, and then at most the reply.
abbrev pub Received : Daemon → Daemon → Type 0
Received d e = (f : Daemon) × Edits d f × Edits (add_log freed f) e

strip_fd-Edits : (ub : MsgBuf) (d : Daemon) → Edits d (strip_fd ub d).1
unfolding strip_fd
strip_fd-Edits ub d = elim (Bool-cases (keeps_fd ub.msg_type)) [
  | inl k ↦ rw k done
  | inr c ↦ rw c (shut ub.fd)
]
  where
    shut : (fd : Option ℕ) → Edits d (close_fd fd d)
    shut none = done
    shut (some fd) = next done (close fd)

pub receive_message-Received :
    (B : Blobmsg) (cl : ℕ) (ub : MsgBuf) (d : Daemon)
    → Ensures (Received d) (receive_message B cl ub d)
unfolding receive_message finish
receive_message-Received B cl ub d =
    >>=-Ensures (handle-Outcome cl (strip_fd ub d).0 (strip_fd ub d).1 B ub.msg_type) last
  where
    last :
        (r : Ret × Daemon)
        → Outcome (strip_fd ub d).1 r
        → Ensures (Received d) (finish cl ub r.0 r.1)
    last (status st, e) s =
        Ensures-mono (send_to-Edits (some cl) _ (add_log freed e))
          λ f r. (e, Edits-trans (strip_fd-Edits ub d) s, r)
    last (consumed, e) (f, s, p) = ensured (f, Edits-trans (strip_fd-Edits ub d) s, rw p done)
