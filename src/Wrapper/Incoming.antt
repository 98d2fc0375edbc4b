-- ===== src/Wrapper/Incoming.antt =====
-- java_ubus_example/jni/ubus_wrapper.c: calls from other clients wait in a list until Java answers
-- them.
pub mod Answered
use libubus_jni.Prelude.{
  ℕ, ◌+◌, ◌-◌, Bool, true, false, List, [], ◌∷◌, ◌++◌, Option, none, some, ltb, leb, length,
  if◌then◌else◌, ◌>>=◌,
}
use libubus_jni.Libubox.Text.{CString, str_eq}
use libubus_jni.Libubox.Tree.{find, id_ord}
use libubus_jni.Ubusd.Message.{Blob}
use libubus_jni.Libubus.Object.{
  Handler, Method, RequestData, Host, Program, object, complete_deferred_request, send_reply,
}
use libubus_jni.Wrapper.Calls.{without}

-- `struct ubus_incoming_context`
pub record Deferred : Type 0 where
  pub req : RequestData
  pub method : CString
  pub json : CString

-- The static variables `_ubus_incoming_reqs` and `_accept_incoming`; what `req` of each
-- `struct ubus_jni_context` that has one points to; and the context of libubus, where the address of
-- an object is its index in `_ubus_objects`.
pub record Desk : Type 0 where
  pub waiting : List Deferred
  pub accepted : ℕ
  pub held : List (ℕ × Deferred)
  pub host : Host

-- MAX_OBJECTS
abbrev pub max_objects : ℕ
max_objects = 100

-- The loop of `dummy_defer_cb` over the methods, with the name of the one that it finds. The outer
-- `none` is a name NULL that strcmp follows.
unfoldable pub named : CString → List Method → Option (Option CString)
named name [] = some none
named name (f ∷ fs) =
    let rest = named name fs in
    elim f.name [ none ↦ none | some n ↦ if str_eq n name then some (some n) else rest ]

-- `dummy_defer_cb`, with `ubus_defer_request`, where `format` is blobmsg_format_json: the result, and
-- the request of libubus. `none` is an assertion that does not hold, or a pointer NULL that is
-- followed; UBUS_STATUS_UNKNOWN_ERROR is 9.
unfoldable pub defer_cb :
    (Option Blob → Option CString)
    → ℕ
    → RequestData
    → CString
    → Option Blob
    → Desk
    → Option (ℕ × RequestData × Desk)
unfolding named
defer_cb format a req name msg D = do
  let json_str = format msg
  o ← object a D.host
  cur_method ← named name o.methods
  let defer = do
    json ← json_str
    n ← cur_method
    some (
      0,
      record req { deferred = true },
      record D { waiting = D.waiting ++ (record { req = req; method = n; json = json } ∷ []) },
    )
  let cleanup : Option (ℕ × RequestData × Desk) = elim cur_method [
    | none ↦ some (9, req, D)
    | some _ ↦ defer
  ]
  if ltb D.accepted 100 then (if leb a max_objects then cleanup else none) else none

-- The functions of this application as libubus sees them.
unfoldable pub deferring : (Option Blob → Option CString) → Desk → Program
unfolding defer_cb
deferring format D = record {
  run = λ f a req name msg h. elim (defer_cb format a req name msg (record D { host = h })) [
    | none ↦ (0, req, h)
    | some (ret, r, D1) ↦ (ret, r, D1.host)
  ];
  subscribed = λ a h. h;
  removed = λ a t h. h;
  answer = λ m h. h;
}

-- `ubus_wrap_accept_request`: whether it returns 0.
unfoldable pub accept_request : ℕ → Desk → Bool × Desk
unfolding without
accept_request u D = elim D.waiting [
  | [] ↦ (false, D)
  | d ∷ rest ↦ (
    true,
    record D { waiting = rest; accepted = D.accepted + 1; held = (u, d) ∷ without u D.held },
  )
]

-- `ubus_wrap_get_requst_method`
unfoldable pub get_request_method : ℕ → Desk → Option CString
get_request_method u D = find u D.held >>= λ d. some d.method

-- `ubus_wrap_get_requst_json`, with the length that goes to `plen`.
unfoldable pub get_request_json : ℕ → Desk → Option (CString × ℕ)
get_request_json u D = find u D.held >>= λ d. some (d.json, length d.json)

-- `ubus_wrap_reply`, where `blob_of` is what blobmsg_add_json_from_string leaves in a new buffer, and
-- `sent` whether `ubus_send_msg` succeeds. `none` is the assertion.
unfoldable pub reply : (CString → Blob) → Bool → ℕ → Option CString → Desk → Option Desk
unfolding without
reply blob_of sent u json D = do
  d ← find u D.held
  let h : Host = elim json [ none ↦ D.host | some s ↦ (send_reply sent d.req (blob_of s) D.host).1 ]
  some (record D {
    accepted = D.accepted - 1;
    held = without u D.held;
    host = complete_deferred_request d.req 0 h;
  })
