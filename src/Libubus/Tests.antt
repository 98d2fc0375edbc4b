-- ===== src/Libubus/Tests.antt =====
-- The theorems about the client library at concrete inputs.
use libubus_jni.Prelude.{
  ℕ, ◌≡◌, refl, Bool, true, false, List, [], ◌∷◌, Option, none, some, replicate,
}
use libubus_jni.Libubox.Tree.{find, id_ord}
use libubus_jni.Libubus.Request.{Incoming, Request, Context, App, Complete, request}
use libubus_jni.Ubusd.State.{remove_first}
use libubus_jni.Libubus.Request.Answer.{any_bit, find_notify_id, process_notify_status}
use libubus_jni.Libubus.Request.Outstanding.{outstanding, Quiet, answered, notify_answer}
use libubus_jni.Libubus.Request.Agreed.{notify_agreed}
use libubus_jni.Libubox.Text.{codes}
use libubus_jni.Ubusd.Message.{MsgBuf, MsgType}
use libubus_jni.Ubusd.State.{Daemon, find_object, sent, freed}
use libubus_jni.Ubusd.Proto.Reply.{consumed}
use libubus_jni.Ubusd.Proto.Call.{handle_notify}
use libubus_jni.Ubusd.Proto.Call.Notified.{notice, listing as told}
use libubus_jni.Ubusd.Samples.{demo, object_of, message_of, no_attrs}

abbrev silent : App
silent x c = c

silent-Quiet : Quiet silent
silent-Quiet x c = refl

abbrev notification : List Bool → List ℕ → Request
notification bits ids = record {
  seq = 4;
  peer = 2000;
  status_msg = false;
  status_code = 0;
  blocked = false;
  cancelled = false;
  notify = true;
  complete_cb = Complete.of_notify;
  data_cb = false;
  raw_data_cb = false;
  fd_cb = false;
  pending = [];
  bits = bits;
  ids = ids;
  status_cb = true;
  notify_complete_cb = true;
}

abbrev with_request : Request → Context
with_request q = record { memory = (1, q) ∷ []; requests = 1 ∷ []; request_seq = 4; log = [] }

-- Subscribers 8 and 9 have yet to answer.
abbrev waiting : Request
waiting = notification (false ∷ true ∷ true ∷ replicate 29 false) (2000 ∷ 8 ∷ 9 ∷ replicate 14 0)

abbrev status_from : ℕ → Option (List (Option ℕ)) → Incoming
status_from p ss = record {
  is_status = true;
  seq = 4;
  peer = p;
  status = some 0;
  payload = none;
  subscribers = ss;
}

notify_answer_example :
    process_notify_status silent 1 2 (status_from 9 none) (with_request waiting)
    ≡ some (answered 1 2 (status_from 9 none) waiting (with_request waiting))
unfolding request find find_notify_id any_bit remove_first
notify_answer_example =
    notify_answer silent silent-Quiet 1 1 (status_from 9 none) (with_request waiting) waiting refl
      refl refl

-- A notification that ubusd answers with three subscribers.
abbrev asked : Request
asked = notification (true ∷ replicate 31 false) (2000 ∷ replicate 16 0)

abbrev listing : Incoming
listing = status_from 2000 (some (some 8 ∷ none ∷ some 9 ∷ []))

-- Object 2001 of client 7 has subscribed to object 2000 of client 5.
abbrev with_subscriber : Daemon
with_subscriber = record demo {
  objects =
      (2000, record (object_of 5 none) { subscribers = 2001 ∷ [] })
      ∷ (2001, record (object_of 7 none) { target_list = 2000 ∷ [] })
      ∷ [];
}

abbrev notice_up : MsgBuf
notice_up =
    message_of MsgType.notify 0 (record no_attrs { objid = some 2000; method = some (codes "up") })

notify_agreed_example :
    (handle_notify 5 notice_up with_subscriber
      ≡ some (
        consumed,
        record with_subscriber {
          log =
              freed
              ∷ sent 7 (notice 5 (codes "up") notice_up 2001)
              ∷ sent 5 (told 2000 notice_up (2001 ∷ []))
              ∷ [];
        },
      ))
    × ((c1 : Context) × (q1 : Request) × (request 1 c1 ≡ some q1)
        × (outstanding q1.bits q1.ids ≡ 2001 ∷ [])
        × (process_notify_status silent 1 0
              (status_from 2000 (some (some 2001 ∷ [])))
              (with_request asked)
            ≡ some c1))
unfolding request find find_object
notify_agreed_example =
    notify_agreed 5 2000 (codes "up") notice_up with_subscriber
      (record (object_of 5 none) { subscribers = 2001 ∷ [] }) (7 ∷ []) silent 1
      (status_from 2000 (some (some 2001 ∷ []))) (with_request asked) asked refl refl refl refl refl
      refl
      (
        (
          record (object_of 7 none) { target_list = 2000 ∷ [] },
          record { objects = [] },
          refl,
          refl,
          refl,
        ),
        tt,
      )
      refl refl refl refl
