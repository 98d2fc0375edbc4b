-- ===== src/Libubus/Queue.antt =====
-- ubus/libubus.c: the messages for objects, and those that wait for a request.
pub mod Pending
use libubus_jni.Prelude.{
  ℕ, zero, suc, Bool, true, false, ◌||◌, not, List, [], ◌∷◌, Option, none, some, if◌then◌else◌,
  ◌>>=◌, ◌==◌,
}
use libubus_jni.Libubox.Text.{CString, str_eq}
use libubus_jni.Libubox.Tree.{find, update, id_ord}
use libubus_jni.Ubusd.Message.{
  Blob, MsgType, Message, built, put_status, put_objid, put_data, Field,
}
use libubus_jni.Libubus.Object.{ObjMsg, Host, Program, process_obj_msg}

-- `ubus_queue_msg`
unfoldable pub queue_msg : ObjMsg → Host → Host
queue_msg m h = record h {
  pending = m ∷ h.pending;
  pending_timer = h.pending_timer || h.registered;
}

-- `ubus_process_msg`
unfoldable pub process_msg : Bool → Program → ObjMsg → Host → Option Host
process_msg in_msgbuf P m h =
    let now = process_obj_msg in_msgbuf P m h in
    let later = if h.stack_depth == 0 then now else some (queue_msg m h) in
    elim m.msg_type [
      | MsgType.status ↦ some (P.answer m h)
      | MsgType.data_reply ↦ some (P.answer m h)
      | MsgType.invoke ↦ later
      | MsgType.unsubscribe ↦ later
      | MsgType.notify ↦ later
      | _ ↦ some h
    ]

-- `ubus_process_pending_msg`, on fuel.
unfoldable pub process_pending_msg : ℕ → Program → Host → Option Host
process_pending_msg zero P h = none
process_pending_msg (suc fuel) P h = elim h.pending [
  | [] ↦ some h
  | m ∷ ms ↦
      let go = do
        h1 ← process_msg false P m (record h { pending = ms })
        process_pending_msg fuel P h1
      in if h.stack_depth == 0 then go else some h
]
