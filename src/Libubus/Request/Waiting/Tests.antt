-- ===== src/Libubus/Request/Waiting/Tests.antt =====
-- Waiting for a request at concrete inputs.
use libubus_jni.Prelude.{ℕ, ◌≡◌, refl, true, false, List, [], ◌∷◌, ◌++◌, none, some, arith}
use libubus_jni.Libubox.Tree.{find, update, id_ord}
use libubus_jni.Libubus.Request.{Incoming, Request, Complete, App, request}
use libubus_jni.Libubus.Request.Answer.{find_request, matches}
use libubus_jni.Libubus.Request.Waiting.{Round, Waiter}
use libubus_jni.Libubus.Request.Waiting.Rounds.{AllIdle, waiting_on, deadline}
use libubus_jni.Libubus.Request.Waiting.Returned.{Restored}
use libubus_jni.Libubus.Request.Notify.{notify, notify-unsent}
use libubus_jni.Libubus.Request.Invoke.{invoke, sent_off, invoke-answered}

-- Request 5 calls a method of object 2000.
abbrev calling : Request
calling = record {
  seq = 5;
  peer = 2000;
  status_msg = false;
  status_code = 0;
  blocked = false;
  cancelled = false;
  notify = false;
  complete_cb = Complete.absent;
  data_cb = true;
  raw_data_cb = false;
  fd_cb = false;
  pending = [];
  bits = [];
  ids = [];
  status_cb = false;
  notify_complete_cb = false;
}

-- The method is called by a method of this client's own that runs.
abbrev inside : Waiter
inside = record {
  ctx = record { memory = (1, calling) ∷ []; requests = []; request_seq = 5; log = [] };
  stack_depth = 1;
  registered = true;
  uloop_cancelled = false;
  pending_runs = 0;
}

abbrev calls_nothing : App
calls_nothing x c = c

abbrev status_with : ℕ → ℕ → Incoming
status_with seq code = record {
  is_status = true;
  seq = seq;
  peer = 2000;
  status = some code;
  payload = none;
  subscribers = none;
}

-- The status of a request that is over.
abbrev late : List Round
late = record { now = 103; messages = (status_with 4 0, none) ∷ [] } ∷ []

-- Before the call, with the request as some earlier one left it.
abbrev ready : Waiter
ready = record inside {
  ctx = record {
    memory = (1, record calling { seq = 3 }) ∷ [];
    requests = [];
    request_seq = 4;
    log = [];
  };
}

ready-AllIdle : AllIdle (deadline 50 100) (waiting_on 1 (sent_off true 1 2000 ready.ctx)) late
unfolding find_request find matches update
ready-AllIdle = (refl, (refl, tt), tt)

invoke-answered_example :
    (w1 : Waiter) × (invoke calls_nothing 1 true true true 50 100
        (late ++ record { now = 120; messages = (status_with 5 3, none) ∷ [] } ∷ [])
        2000
        1
        ready
      ≡ some (some 3, w1))
    × Restored ready w1
unfolding request find
invoke-answered_example =
    invoke-answered calls_nothing 1 50 100 2000 1 true late []
      (record { now = 120; messages = (status_with 5 3, none) ∷ [] }) ready
      (record calling { seq = 3 }) (status_with 5 3) refl refl ready-AllIdle refl refl refl refl
      refl

-- A notification that cannot be sent, and 50 milliseconds later.
notify-unsent_example :
    (w1 w2 : Waiter) × (notify calls_nothing 1 true false
        (some 50)
        100
        (record { now = 151; messages = [] } ∷ [])
        2000
        1
        inside
      ≡ some (some 7, w1))
    × (notify calls_nothing 1 true false none 100
          (record { now = 151; messages = [] } ∷ [])
          2000
          1
          inside
        ≡ some (some 0, w2))
unfolding request find
notify-unsent_example =
    notify-unsent calls_nothing 1 50 100 2000 1 [] [] (record { now = 151; messages = [] }) inside
      calling refl refl (ground arith) tt (omega arith)
