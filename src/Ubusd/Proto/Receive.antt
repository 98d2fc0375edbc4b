-- ===== src/Ubusd/Proto/Receive.antt =====
-- ubus/ubusd_proto.c: the dispatch of a received message.
pub mod Owner
use libubus_jni.Prelude.{ℕ, Bool, true, false, [], ◌∷◌, Option, none, some, if◌then◌else◌, ◌>>=◌}
use libubus_jni.Libubox.Tree.{id_ord, string_ord}
use libubus_jni.Ubusd.Message.{put_status, built, MsgType, MsgBuf, Blobmsg, Status}
use libubus_jni.Ubusd.State.{Daemon, freed, closed, add_log, send_to}
use libubus_jni.Ubusd.Proto.Reply.{Ret, status, consumed, Handler, send_pong}
use libubus_jni.Ubusd.Proto.Objects.{handle_add_object, handle_remove_object}
use libubus_jni.Ubusd.Proto.Lookup.{handle_lookup}
use libubus_jni.Ubusd.Proto.Call.{handle_invoke, handle_notify, handle_response}
use libubus_jni.Ubusd.Proto.Watch.{handle_add_watch, handle_remove_watch}

-- The table `handlers`, and the call of what it holds for a type.
unfoldable pub handle : Blobmsg → MsgType → Handler
unfolding send_pong handle_add_object handle_remove_object handle_lookup handle_invoke
    handle_response handle_add_watch handle_remove_watch handle_notify
handle B MsgType.ping cl ub d = send_pong cl ub d
handle B MsgType.add_object cl ub d = handle_add_object B cl ub d
handle B MsgType.remove_object cl ub d = handle_remove_object cl ub d
handle B MsgType.lookup cl ub d = handle_lookup cl ub d
handle B MsgType.invoke cl ub d = handle_invoke B cl ub d
handle B MsgType.status cl ub d = handle_response cl ub d
handle B MsgType.data_reply cl ub d = handle_response cl ub d
handle B MsgType.subscribe cl ub d = handle_add_watch cl ub d
handle B MsgType.unsubscribe cl ub d = handle_remove_watch cl ub d
handle B MsgType.notify cl ub d = handle_notify cl ub d
handle B MsgType.hello cl ub d = some (status Status.invalid_command, d)
handle B (MsgType.unknown _) cl ub d = some (status Status.invalid_command, d)

-- The number that goes into the attribute UBUS_ATTR_STATUS.
unfoldable pub status_code : Status → ℕ
status_code Status.ok = 0
status_code Status.invalid_command = 1
status_code Status.invalid_argument = 2
status_code Status.method_not_found = 3
status_code Status.not_found = 4
status_code Status.no_data = 5
status_code Status.permission_denied = 6
status_code Status.timeout = 7
status_code Status.not_supported = 8
status_code Status.unknown_error = 9
status_code Status.connection_failed = 10

-- `ubus_msg_close_fd`
unfoldable pub close_fd : Option ℕ → Daemon → Daemon
unfolding add_log
close_fd none d = d
close_fd (some fd) d = add_log (closed fd) d

abbrev pub keeps_fd : MsgType → Bool
keeps_fd MsgType.status = true
keeps_fd _ = false

-- The message that the handler gets, its descriptor closed unless it is a status.
unfoldable pub strip_fd : MsgBuf → Daemon → MsgBuf × Daemon
unfolding close_fd
strip_fd ub d =
    if keeps_fd ub.msg_type then (ub, d) else (record ub { fd = none }, close_fd ub.fd d)

-- The end of `ubusd_proto_receive_message`. `seq` and `peer` of `retmsg` are those of the message
-- as it came.
unfoldable pub finish : ℕ → MsgBuf → Ret → Daemon → Option Daemon
unfolding add_log status_code
finish cl ub consumed d = some d
finish cl ub (status st) d =
    send_to (some cl)
      (record {
        msg_type = MsgType.status;
        seq = ub.seq;
        peer = ub.peer;
        fd = none;
        body = built (put_status (status_code st) ∷ []);
      })
      (add_log freed d)

-- `ubusd_proto_receive_message`
unfoldable pub receive_message : Blobmsg → ℕ → MsgBuf → Daemon → Option Daemon
unfolding strip_fd handle finish
receive_message B cl ub d = do
  let (ub1, d1) = strip_fd ub d
  (ret, d2) ← handle B ub.msg_type cl ub1 d1
  finish cl ub ret d2
