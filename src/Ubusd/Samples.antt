-- ===== src/Ubusd/Samples.antt =====
-- A state of ubusd and messages that the tests share.
use libubus_jni.Prelude.{ℕ, Bool, true, false, [], ◌∷◌, Option, none, some}
use libubus_jni.Libubox.Text.{CString, codes}
use libubus_jni.Ubusd.Message.{Blobmsg, MsgBuf, MsgType, Attrs}
use libubus_jni.Ubusd.State.{Daemon, Object, EventSource}

abbrev pub blobs : Blobmsg
blobs = record {
  check_attr = λ b. true;
  parse_register = λ b. (none, none);
  parse_event = λ b. (none, none);
}

abbrev pub object_of : ℕ → Option CString → Object
object_of c p = record {
  client = some c;
  path = p;
  obj_type = none;
  subscribers = [];
  target_list = [];
  events = [];
  recv_msg = false;
  event_seen = 0;
  invoke_seq = 0;
}

abbrev pub pattern_of : ℕ → ℕ → Bool → EventSource
pattern_of a id partial = record { address = a; obj = id; partial = partial }

-- Clients 5 and 7; client 5 has object 2000 at the path "net", and three event patterns.
abbrev pub demo : Daemon
demo = record {
  objects = (2000, object_of 5 (some (codes "net"))) ∷ [];
  obj_types = [];
  path = (codes "net", 2000) ∷ [];
  patterns =
      (codes "a", pattern_of 0 2000 false)
      ∷ (codes "net.", pattern_of 1 2000 true)
      ∷ (codes "net.up", pattern_of 2 2000 false)
      ∷ [];
  clients = (5, record { objects = 2000 ∷ [] }) ∷ (7, record { objects = [] }) ∷ [];
  event_seq = 0;
  obj_event_seq = 1;
  next_address = 3;
  random = [];
  log = [];
}

abbrev pub no_attrs : Attrs
no_attrs = record {
  status = none;
  objpath = none;
  objid = none;
  method = none;
  objtype = none;
  signature = none;
  payload = none;
  target = none;
  no_reply = none;
}

abbrev pub message_of : MsgType → ℕ → Attrs → MsgBuf
message_of t peer a = record { msg_type = t; seq = 9; peer = peer; fd = none; attrs = a }

abbrev pub call : MsgBuf
call =
    message_of MsgType.invoke 0 (record no_attrs { objid = some 2000; method = some (codes "up") })
