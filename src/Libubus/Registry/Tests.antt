-- ===== src/Libubus/Registry/Tests.antt =====
-- The theorems about the registration of objects at concrete inputs.
use libubus_jni.Prelude.{◌≡◌, ◌+◌, refl, true, false, none, [], ◌∷◌, some, arith, inl}
use libubus_jni.Libubox.Tree.{find, id_ord}
use libubus_jni.Libubus.Object.Dispatch.{taken_buf, given_back}
use libubus_jni.Libubus.Object.{Host, Object, ObjMsg, Program, object, process_obj_msg}
use libubus_jni.Libubus.Registry.Handlers.{register_event_handler, register_event_handler-receives}
use libubus_jni.Libubox.Text.{codes}
use libubus_jni.Ubusd.Message.{MsgType}
use libubus_jni.Libubus.Object.Samples.{net, client}
use libubus_jni.Libubus.Registry.{add_object, remove_object}
use libubus_jni.Libubus.Registry.Samples.{new_id}
use libubus_jni.Libubus.Registry.Roundtrip.{add_remove}

abbrev unregistered : Host
unregistered = record (client 0) { objects = [] }

add_remove_example :
    (h1 h2 : Host) × (add_object
        (record { started = true; replies = new_id 3000 ∷ []; ret = 0 })
        64
        unregistered
      ≡ some (0, h1))
    × (object 64 h1 ≡ some (record net { id = 3000 }))
    × (find 3000 h1.objects ≡ some 64)
    × (remove_object (record { started = true; replies = new_id 3000 ∷ []; ret = 0 }) 64 h1
        ≡ some (0, h2))
    × (object 64 h2 ≡ some (record net { id = 0 }))
    × (h2.objects ≡ [])
unfolding object find
add_remove_example =
    add_remove 64 3000 (new_id 3000) (new_id 3000) unregistered net refl refl refl (ground arith)
      (inl refl) refl refl

-- A handler of events that is not registered, and the event "up".
abbrev handler : Object
handler = record {
  id = 0;
  name = none;
  ty = none;
  methods = [];
  is_watch = false;
  has_subscribers = false;
  subscribe_cb = false;
  cb = true;
  remove_cb = false;
}

abbrev with_handler : Host
with_handler = record (client 0) { memory = (96, handler) ∷ [] }

abbrev event_up : ObjMsg
event_up = record {
  msg_type = MsgType.invoke;
  seq = 4;
  peer = 3;
  objid = some 3000;
  method = some (codes "up");
  no_reply = some 1;
  payload = none;
  target = none;
  active = none;
}

-- Each call is seen by the depth.
abbrev counting : Program
counting = record {
  run = λ f a r n b h. (0, r, record h { stack_depth = h.stack_depth + 1 });
  subscribed = λ a h. h;
  removed = λ a t h. h;
  answer = λ m h. h;
}

register_event_handler-receives_example :
    (h1 : Host) × (register_event_handler
        (record { started = true; replies = new_id 3000 ∷ []; ret = 0 })
        (λ id pattern. id)
        96
        (some (codes "u*"))
        with_handler
      ≡ some (3000, h1))
    × (process_obj_msg true counting event_up h1
        ≡ some
            (given_back true h1 (record (taken_buf true h1) { stack_depth = h1.stack_depth + 1 })))
unfolding object find
register_event_handler-receives_example =
    register_event_handler-receives counting true event_up 96 3000 (new_id 3000) with_handler
      handler (some (codes "u*")) (λ id pattern. id) (codes "up") refl refl refl refl refl refl
      (ground arith) refl refl refl refl refl
