-- ===== src/Wrapper/Tests.antt =====
-- The theorems about the wrapper at concrete inputs.
use libubus_jni.Prelude.{ℕ, ◌≡◌, refl, arith, Bool, true, false, [], ◌∷◌, Option, none, some}
use libubus_jni.Libubox.Text.{CString, codes}
use libubus_jni.Libubox.Tree.{find, update, id_ord}
use libubus_jni.Ubusd.Message.{Blob}
use libubus_jni.Wrapper.Outcome.{ok}
use libubus_jni.Wrapper.Types.{
  Json, Sizes, Info, TypeRow, Block, get_type_info, parse_object_type, fresh_block,
}
use libubus_jni.Wrapper.Types.Described.{Describes, param, no_params, method, no_methods}
use libubus_jni.Wrapper.Types.Held.{read_type}
use libubus_jni.Wrapper.Types.Whole.{Fills, parse_object_type-Fills}
use libubus_jni.Wrapper.Calls.{Wrapper, Attempt, invoke, fetch_return}
use libubus_jni.Wrapper.Calls.Reached.{
  first_wrapper, Reach, start, step, invoked, Agree, Reach-Agree,
}
use libubus_jni.Wrapper.Calls.Order.{fetch_return-Order}
use libubus_jni.Prelude.{List, replicate}
use libubus_jni.Libubox.Text.{str_eq}
use libubus_jni.Ubusd.Message.{MsgType, built, put_objid, put_data}
use libubus_jni.Libubus.Object.{
  Method, Object, ObjMsg, of_application, object, no_request, request_of, status_of, find_method,
  process_obj_msg,
}
use libubus_jni.Libubus.Object.Samples.{client}
use libubus_jni.Libubus.Registry.{Reply}
use libubus_jni.Wrapper.Types.Described
use libubus_jni.Wrapper.Incoming.{
  Desk, defer_cb, deferring, get_request_method, get_request_json, reply,
}
use libubus_jni.Wrapper.Incoming.Answered.{
  no_more, deferred, accept_all, deferred_call, handling, Taken, deferred_call-answered,
}
use libubus_jni.Wrapper.Objects.{Table, cleared_object}

-- A type with one method of one parameter: the attributes of a text are numbered.
abbrev one_method : Json
one_method = record {
  load = λ _. some (1 ∷ []);
  type_fields = λ _. some (some (codes "counter"), some ((2 ∷ []) ∷ []));
  method_fields = λ _. some (some (codes "add"), some ((3 ∷ []) ∷ []));
  params_fields = λ _. some (some (codes "by"), some 5);
}

abbrev on_64_bits : Sizes
on_64_bits = record { object_type = 32; method = 48; policy = 16 }

one_method-Describes :
    Describes one_method [] (codes "counter") ((codes "add", (codes "by", 5) ∷ []) ∷ [])
one_method-Describes = record {
  buf = 1 ∷ [];
  items = (2 ∷ []) ∷ [];
  loaded = refl;
  fields = refl;
  methods = method refl (param refl no_params) no_methods;
}

parse_object_type-Fills_example :
    (size : ℕ) × (i : Info) × (t : TypeRow) × (m : Block) × (get_type_info one_method on_64_bits []
      ≡ ok (size, i))
    × (parse_object_type one_method on_64_bits [] size (fresh_block on_64_bits i) ≡ ok (t, m))
    × Fills on_64_bits m size
    × (read_type on_64_bits m t ≡ some (codes "counter", (codes "add", (codes "by", 5) ∷ []) ∷ []))
parse_object_type-Fills_example =
    parse_object_type-Fills one_method on_64_bits [] (codes "counter")
      ((codes "add", (codes "by", 5) ∷ []) ∷ []) (omega arith) (omega arith) one_method-Describes

abbrev as_text : Option Blob → CString
as_text none = []
as_text (some b) = b

-- The daemon is not there.
abbrev down : Attempt
down = record { connects = false; meanwhile = []; found = none; fits = false; sent = false }

-- The daemon knows the object, and takes the message.
abbrev up : Attempt
up = record { connects = true; meanwhile = []; found = some 9; fits = true; sent = true }

abbrev after : Option (Bool × Wrapper) → Wrapper
after none = first_wrapper
after (some r) = r.1

abbrev one_failed : Wrapper
one_failed = after (invoke as_text 3 7 42 down first_wrapper)

-- A call has failed, and another waits.
abbrev two_calls : Wrapper
two_calls = after (invoke as_text 3 8 43 up one_failed)

two_calls-Reach : Reach as_text two_calls
unfolding invoke find update
two_calls-Reach = step (step start (invoked 3 7 42 down refl)) (invoked 3 8 43 up refl)

Reach-Agree_example : Agree as_text 8 two_calls
Reach-Agree_example = Reach-Agree as_text 8 two_calls two_calls-Reach

fetch_return-Order_example :
    (W1 : Wrapper) × (fetch_return as_text 3 5 [] two_calls ≡ some (42 ∷ [], W1))
    × (W1.returns ≡ [])
    × (W1.ctx ≡ two_calls.ctx)
unfolding invoke find update
fetch_return-Order_example = fetch_return-Order as_text 3 5 [] two_calls two_calls-Reach (λ e. cc)

-- The first place of `_ubus_objects`, as it is at the start.
abbrev first_table : Table
first_table = record {
  nobject = 0;
  in_use = replicate 100 false;
  blocks = [];
  connected = false;
  host = record (client 0) { memory = (0, cleared_object) ∷ []; objects = [] };
}

abbrev counter_methods : List Described.Method
counter_methods = (codes "add", (codes "by", 5) ∷ []) ∷ []

-- What ubusd answers.
abbrev with_id : Reply
with_id = record { objid = some 2000; objpath = none; objtype = some 77; signature = none }

-- The object behind its addition.
abbrev counter : Object
counter = record cleared_object {
  id = 2000;
  name = some (codes "c");
  ty = some 4096;
  methods = record { name = some (codes "add"); handler = of_application 0 } ∷ [];
}

-- One call waits already, and nobody has accepted any.
abbrev busy_desk : Desk
busy_desk = record {
  waiting = deferred_call (record no_request { peer = 3; seq = 1 }) (codes "add") [] ∷ [];
  accepted = 0;
  held = [];
  host = record (client 0) { memory = (0, counter) ∷ []; objects = (2000, 0) ∷ [] };
}

abbrev add_call : ObjMsg
add_call = record {
  msg_type = MsgType.invoke;
  seq = 8;
  peer = 5;
  objid = some 2000;
  method = some (codes "add");
  no_reply = none;
  payload = some (1 ∷ []);
  target = none;
  active = none;
}

abbrev add_method : Method
add_method = record { name = some (codes "add"); handler = of_application 0 }

abbrev some_text : Option Blob → Option CString
some_text none = none
some_text (some b) = some b

add_call-Taken : Taken some_text add_call 0 busy_desk counter add_method (codes "add") (1 ∷ [])
unfolding object find find_method str_eq
add_call-Taken = record {
  called = record {
    invokes = refl;
    id = 2000;
    names_object = refl;
    registered = refl;
    in_memory = refl;
    names_method = refl;
  };
  all = deferred no_more;
  finds = refl;
  text = refl;
  few = omega arith;
  inside = omega arith;
}

deferred_call-answered_example :
    (n : CString) × (D1 D2 : Desk) × (str_eq n (codes "add") ≡ true)
    × (process_obj_msg true (deferring some_text busy_desk) add_call busy_desk.host
        ≡ some busy_desk.host)
    × (defer_cb some_text 0
          (request_of counter add_call)
          (codes "add")
          (some (1 ∷ []))
          (handling true busy_desk)
        ≡ some (0, record (request_of counter add_call) { deferred = true }, handling true D1))
    × (get_request_method 12 (accept_all (11 ∷ 12 ∷ []) D1) ≡ some n)
    × (get_request_json 12 (accept_all (11 ∷ 12 ∷ []) D1) ≡ some (1 ∷ [], 1))
    × (reply (λ s. s) true 12 (some (9 ∷ [])) (accept_all (11 ∷ 12 ∷ []) D1) ≡ some D2)
    × (D2.host ≡ record busy_desk.host {
      sent =
          status_of (request_of counter add_call) 0
          ∷ record {
            msg_type = MsgType.data_reply;
            seq = 8;
            peer = 5;
            fd = none;
            body = built (put_objid 2000 ∷ put_data (9 ∷ []) ∷ []);
          }
          ∷ [];
    })
deferred_call-answered_example =
    deferred_call-answered some_text true add_call 0 busy_desk counter add_method (codes "add")
      (1 ∷ []) add_call-Taken (λ s. s) true (11 ∷ []) 12 (9 ∷ []) refl
