-- ===== src/Ubusd/Proto/Reply.antt =====
-- ubus/ubusd_proto.c: what a handler returns, replies, hello and pong.
use libubus_jni.Prelude.{ℕ, List, [], Option, none, some, ◌>>=◌}
use libubus_jni.Libubox.Tree.{id_ord, string_ord}
use libubus_jni.Ubusd.Message.{Field, built, received, MsgType, MsgBuf, Status}
use libubus_jni.Ubusd.State.{Daemon, send_to}

-- The result of a handler: a status, or -1 when it has consumed the message.
pub data Ret : Type 0 where
  status : Status → Ret
  consumed : Ret

abbrev pub Handler : Type 0
Handler = ℕ → MsgBuf → Daemon → Option (Ret × Daemon)

-- `ubus_send_msg_from_blob`, with `ubus_reply_from_blob` in it.
unfoldable pub send_msg_from_blob :
    Option ℕ → MsgBuf → MsgType → List Field → Daemon → Option Daemon
unfolding send_to
send_msg_from_blob cl ub type fields =
    send_to cl
      (record { msg_type = type; seq = ub.seq; peer = ub.peer; fd = none; body = built fields })

-- `ubusd_send_hello`
unfoldable pub send_hello : ℕ → Daemon → Option Daemon
send_hello cl =
    send_to (some cl)
      (record { msg_type = MsgType.hello; seq = 0; peer = cl; fd = none; body = built [] })

-- `ubusd_send_pong`
unfoldable pub send_pong : Handler
send_pong cl ub d =
    send_to (some cl)
      (record {
        msg_type = MsgType.data_reply;
        seq = ub.seq;
        peer = ub.peer;
        fd = ub.fd;
        body = received ub.attrs;
      })
      d
    >>= λ d1. some (status Status.ok, d1)
