-- ===== src/Ubusd/Tests.antt =====
-- The theorems about ubusd at concrete inputs.
use libubus_jni.Prelude.{◌+◌, ◌%◌, ◌≡◌, refl, true, false, [], ◌∷◌, none, some, arith, filter, ◌≤◌}
use libubus_jni.Libubox.Text.{codes, strcmp, strncmp_eq, last_or, cut_last}
use libubus_jni.Libubox.Tree.{find, place, delete, id_ord, string_ord, update}
use libubus_jni.Libubox.Tree.Sorted.{Sorted}
use libubus_jni.Ubusd.Message.{
  MsgBuf, MsgType, Status, Message, built, put_status, received, u32_mod, put_objid, put_objpath,
  put_objtype, put_signature, put_active,
}
use libubus_jni.Ubusd.State.{
  Daemon, Object, ObjectType, find_object, add_log, freed, sent, send_to, set_object, same_client,
}
use libubus_jni.Ubusd.Samples.{blobs, object_of, demo, no_attrs, message_of, call}
use libubus_jni.Ubusd.Id.{alloc_id}
use libubus_jni.Ubusd.Id.Fresh.{alloc_id-draws}
use libubus_jni.Ubusd.Event.{send_event, strmatch_len, send_event_msg}
use libubus_jni.Ubusd.Event.Once.{count_for, send_event-Once}
use libubus_jni.Ubusd.Event.Match.{is_match}
use libubus_jni.Ubusd.Event.Delivery.{deliver, send_event-deliver}
use libubus_jni.Ubusd.Proto.Reply.{consumed, status}
use libubus_jni.Ubusd.Proto.Lookup.{handle_lookup}
use libubus_jni.Ubusd.Proto.Lookup.Prefix.{
  has_prefix, any_prefix, logged, no_more, one_more, handle_lookup_wildcard,
}
use libubus_jni.Ubusd.Proto.Objects.{handle_remove_object}
use libubus_jni.Ubusd.Proto.Objects.Removed.{ended, deserted, handle_remove_object-overwritten}
use libubus_jni.Ubusd.Proto.Call.{handle_invoke, handle_response}
use libubus_jni.Ubusd.Proto.Call.Routing.{call_message, invoke_response}
use libubus_jni.Ubusd.Proto.Receive.{handle, receive_message}
use libubus_jni.Ubusd.Proto.Receive.Owner.{IsRefused, handle-foreign}
use libubus_jni.Ubusd.Edits.Freed.{frees, receive_message-frees}

alloc_id-draws_example :
    (alloc_id 0 true ((3, true) ∷ []) (3 ∷ 8 ∷ 4 ∷ [])
      ≡ (some (8, place 8 true ((3, true) ∷ [])), 4 ∷ []))
    × (alloc_id 0 true ((3, true) ∷ []) (3 ∷ []) ≡ (none, []))
unfolding find
alloc_id-draws_example =
    alloc_id-draws true ((3, true) ∷ []) (3 ∷ []) 8 (4 ∷ []) ((true, refl), tt) refl

demo_patterns-Sorted : Sorted demo.patterns
unfolding strcmp
demo_patterns-Sorted = (ground arith, (ground arith, tt))

send_event-deliver_example :
    send_event none (codes "net.up") [] demo
    ≡ deliver none []
        (filter (is_match (codes "net.up")) demo.patterns)
        (record demo { obj_event_seq = (1 + 1) % u32_mod })
send_event-deliver_example = send_event-deliver none (codes "net.up") [] demo demo_patterns-Sorted

abbrev lookup_all : MsgBuf
lookup_all =
    message_of MsgType.lookup 0
      (record no_attrs { objpath = some (record { before = 0; chars = codes "n*" }) })

-- The object has a type with one method.
abbrev typed_demo : Daemon
typed_demo = record demo {
  objects = (2000, record (object_of 5 (some (codes "net"))) { obj_type = some 77 }) ∷ [];
  obj_types = (77, record { refcount = 1; methods = (1 ∷ 2 ∷ []) ∷ [] }) ∷ [];
}

-- The reply to the lookup.
abbrev net_described : Message
net_described = record {
  msg_type = MsgType.data_reply;
  seq = 9;
  peer = 0;
  fd = none;
  body = built (
      put_objpath (codes "net")
      ∷ put_objid 2000
      ∷ put_objtype 77
      ∷ put_signature ((1 ∷ 2 ∷ []) ∷ [])
      ∷ []);
}

handle_lookup_wildcard_example :
    handle_lookup 7 lookup_all typed_demo
    ≡ some (status Status.ok, record typed_demo { log = sent 7 net_described ∷ [] })
unfolding last_or cut_last has_prefix any_prefix strncmp_eq find find_object logged add_log
handle_lookup_wildcard_example =
    handle_lookup_wildcard 7 lookup_all typed_demo (record { before = 0; chars = codes "n*" })
      (record { objects = [] }) (net_described ∷ []) refl refl (ground arith) tt refl
      (one_more refl refl refl no_more)

abbrev ponged : Daemon
ponged = record demo {
  log =
      sent 5 (record {
        msg_type = MsgType.status;
        seq = 9;
        peer = 0;
        fd = none;
        body = built (put_status 0 ∷ []);
      })
      ∷ freed
      ∷ sent 5 (record {
        msg_type = MsgType.data_reply;
        seq = 9;
        peer = 0;
        fd = none;
        body = received no_attrs;
      })
      ∷ [];
}

receive_message-frees_example : frees ponged.log ≡ frees demo.log + 1
unfolding receive_message send_to find add_log
receive_message-frees_example =
    receive_message-frees blobs 5 (message_of MsgType.ping 0 no_attrs) demo ponged refl

abbrev answer : MsgBuf
answer = message_of MsgType.data_reply 7 (record no_attrs { objid = some 2000; payload = some [] })

invoke_response_example :
    (d1 d2 : Daemon) × (m : Message) × (handle_invoke blobs 7 call demo ≡ some (consumed, d1))
    × (handle_response 5 answer d1 ≡ some (consumed, d2))
    × (d2.log ≡ freed ∷ sent 7 m ∷ freed ∷ sent 5 (call_message 7 2000 (codes "up") call) ∷ [])
    × (m.seq ≡ 9)
    × (m.peer ≡ 2000)
    × (m.body ≡ received answer.attrs)
unfolding find_object find
invoke_response_example =
    invoke_response blobs 7 5 2000 (codes "up") call answer demo (object_of 5 (some (codes "net")))
      refl refl refl refl refl refl refl refl refl refl refl

handle-foreign_example : IsRefused demo (handle blobs MsgType.remove_object 7 call demo)
unfolding find_object find
handle-foreign_example =
    handle-foreign blobs MsgType.remove_object 7 2000 call demo (object_of 5 (some (codes "net")))
      refl refl refl (ground arith)

-- The object has two patterns for the event, and gets one message.
abbrev told : Daemon
told = record demo {
  objects = (2000, record (object_of 5 (some (codes "net"))) { event_seen = 2 }) ∷ [];
  event_seq = 1;
  obj_event_seq = 2;
  log =
      sent 5 (record {
        msg_type = MsgType.invoke;
        seq = 1;
        peer = 0;
        fd = none;
        body = built (put_objid 2000 ∷ []);
      })
      ∷ [];
}

send_event-Once_example : count_for 2000 told.log ≤ count_for 2000 demo.log + 1
unfolding send_event send_event_msg find_object set_object same_client send_to find update add_log
    strmatch_len
send_event-Once_example = send_event-Once 2000 none (codes "net.up") [] demo told refl

-- The typed object has a subscriber, object 3000 of client 7.
abbrev watched_object : Object
watched_object = record (object_of 5 none) { obj_type = some 77; subscribers = 3000 ∷ [] }

abbrev watcher : Object
watcher = record (object_of 7 none) { target_list = 2000 ∷ [] }

abbrev one_type : ObjectType
one_type = record { refcount = 1; methods = [] }

abbrev watched : Daemon
watched = record demo {
  objects = (2000, watched_object) ∷ (3000, watcher) ∷ [];
  obj_types = (77, one_type) ∷ [];
  path = [];
  patterns = [];
}

handle_remove_object-overwritten_example :
    (d1 : Daemon) × (handle_remove_object 5 call watched ≡ some (status Status.ok, d1))
    × (d1.obj_types ≡ [])
    × (d1.log
        ≡ sent 5 (record {
          msg_type = MsgType.data_reply;
          seq = 9;
          peer = 0;
          fd = none;
          body = built (put_objid 2000 ∷ put_active false ∷ []);
        })
          ∷ sent 5 (deserted 2000 watched_object)
          ∷ sent 7 (ended 3000 2000 watcher)
          ∷ [])
unfolding find find_object delete
handle_remove_object-overwritten_example =
    handle_remove_object-overwritten 5 2000 3000 watched_object (record { objects = 2000 ∷ [] })
      refl refl (ground arith) 7 watched watcher (record { objects = [] })
      (record { object = refl; client = refl }) refl refl refl 77 one_type refl refl refl refl refl
      refl call refl
