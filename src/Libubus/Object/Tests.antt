-- ===== src/Libubus/Object/Tests.antt =====
-- The theorems about the objects of a client at concrete inputs.
use libubus_jni.Prelude.{ℕ, ◌≡◌, refl, true, [], ◌∷◌, none, some, arith, ap}
use libubus_jni.Libubox.Text.{codes, str_eq, strcmp}
use libubus_jni.Libubox.Tree.{find, id_ord}
use libubus_jni.Ubusd.Message.{MsgBuf, MsgType, Message, received}
use libubus_jni.Ubusd.Samples.{blobs, object_of, demo, no_attrs, call}
use libubus_jni.Ubusd.State.{Daemon, find_object, add_log, sent, freed}
use libubus_jni.Ubusd.Proto.Reply.{consumed}
use libubus_jni.Ubusd.Proto.Call.{handle_invoke, handle_response}
use libubus_jni.Ubusd.Proto.Call.Routing.{call_message}
use libubus_jni.Libubus.Object.{
  ObjMsg, Host, Program, object, status_of, no_request, request_of, find_method, call_handler,
  process_obj_msg, restore_msgbuf,
}
use libubus_jni.Libubus.Object.Samples.{up, net, client}
use libubus_jni.Libubus.Object.Answered.{unknown_object-dropped, call_status}
use libubus_jni.Libubus.Object.Keeps.{InMemory, IsQuiet, Keeps}
use libubus_jni.Libubus.Queue.{process_pending_msg}
use libubus_jni.Libubus.Queue.Pending.{Processes, receive_all, pending_reversed}

-- An application whose methods return 0 and do nothing.
abbrev idle_program : Program
idle_program = record {
  run = λ f a r n b h. (0, r, h);
  subscribed = λ a h. h;
  removed = λ a t h. h;
  answer = λ m h. h;
}

abbrev nop : (h : Host) → Keeps h h
nop h = record { pending = refl; depth = refl; memory = λ i. i }

idle_program-IsQuiet : IsQuiet idle_program
idle_program-IsQuiet = record {
  run = λ f a r n b h. nop h;
  subscribed = λ a h. nop h;
  removed = λ a t h. nop h;
  answer = λ m h. nop h;
}

abbrev call_up : ℕ → ObjMsg
call_up id = record {
  msg_type = MsgType.invoke;
  seq = 9;
  peer = 7;
  objid = some id;
  method = some (codes "up");
  no_reply = none;
  payload = none;
  target = none;
  active = none;
}

-- The status of the method, and that for an object which the client does not have, as ubusd reads
-- them.
abbrev status_up : MsgBuf
status_up = record {
  msg_type = MsgType.status;
  seq = 9;
  peer = 7;
  fd = none;
  attrs = record no_attrs { status = some 0; objid = some 2000 };
}

abbrev status_unknown : MsgBuf
status_unknown = record {
  msg_type = MsgType.status;
  seq = 0;
  peer = 0;
  fd = none;
  attrs = record no_attrs { status = some 4; objid = some 0 };
}

unknown_object-dropped_example :
    (process_obj_msg true idle_program (call_up 2001) (client 0)
      ≡ some (record (client 0) { sent = status_of no_request 4 ∷ [] }))
    × (handle_response 5 status_unknown demo ≡ some (consumed, add_log freed demo))
unfolding find find_object restore_msgbuf
unknown_object-dropped_example =
    unknown_object-dropped idle_program true (call_up 2001) 2001 (client 0) 5 status_unknown demo
      refl refl refl refl
      (record { same_type = refl; same_seq = refl; same_peer = refl; fields = (refl, refl) })

call_status_example :
    (d1 d2 : Daemon) × (t : Message) × (handle_invoke blobs 7 call demo ≡ some (consumed, d1))
    × (process_obj_msg true idle_program (call_up 2000) (client 0)
        ≡ some (record (client 0) { sent = status_of (request_of net (call_up 2000)) 0 ∷ [] }))
    × (handle_response 5 status_up d1 ≡ some (consumed, d2))
    × (d2.log ≡ freed ∷ sent 7 t ∷ freed ∷ sent 5 (call_message 7 2000 (codes "up") call) ∷ [])
    × (t.seq ≡ 9)
    × (t.peer ≡ 2000)
    × (t.body ≡ received status_up.attrs)
    × (status_up.attrs.status ≡ some 0)
unfolding find find_object object find_method call_handler str_eq strcmp restore_msgbuf
call_status_example =
    call_status blobs idle_program true 7 5 2000 64 0 (codes "up") call (call_up 2000) status_up
      demo (object_of 5 (some (codes "net"))) (client 0) (record (client 0) { msgbuf = none }) net
      up refl refl refl refl refl refl
      (record {
        invokes = refl;
        same_seq = refl;
        same_peer = refl;
        names_object = refl;
        names_method = refl;
        reply = refl;
      })
      refl refl refl refl refl
      (record { same_type = refl; same_seq = refl; same_peer = refl; fields = (refl, refl) })

client-InMemory : InMemory (client 1)
unfolding find object
client-InMemory id a e =
    let at : a ≡ 64 = ground arith in (net, ap (λ x. find x (client 1).memory) at)

pending_reversed_example :
    (h1 h2 : Host) × (receive_all idle_program (call_up 2000 ∷ call_up 1 ∷ []) (client 1) ≡ some h1)
    × (h1 ≡ record (client 1) {
      pending = call_up 1 ∷ call_up 2000 ∷ [];
      pending_timer = h1.pending_timer;
    })
    × (process_pending_msg 3 idle_program (record h1 { stack_depth = 0 }) ≡ some h2)
    × Processes idle_program (call_up 1 ∷ call_up 2000 ∷ []) (record h1 { stack_depth = 0 }) h2
pending_reversed_example =
    pending_reversed idle_program (call_up 2000 ∷ call_up 1 ∷ []) (client 1) 0 idle_program-IsQuiet
      client-InMemory (tt, (tt, tt)) refl refl
