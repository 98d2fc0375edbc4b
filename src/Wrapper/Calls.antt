-- ===== src/Wrapper/Calls.antt =====
-- java_ubus_example/jni/ubus_wrapper.c: the calls of methods that wait for an answer, and the list of
-- those that have one.
pub mod Balanced
pub mod Operations
pub mod Started
pub mod Invoked
pub mod Fetched
pub mod Released
pub mod Reached
pub mod Order
use libubus_jni.Prelude.{
  ℕ, zero, suc, ◌+◌, ◌%◌, Bool, true, false, List, [], ◌∷◌, ◌++◌, Option, none, some, if◌then◌else◌,
  ◌>>=◌, ◌==◌, ◌||◌,
}
use libubus_jni.Libubox.Text.{CString}
use libubus_jni.Libubox.Tree.{find, update, id_ord}
use libubus_jni.Ubusd.Message.{Blob, u16_mod}
use libubus_jni.Ubusd.State.{remove_first}
use libubus_jni.Libubus.Request.{
  Incoming, Request, Complete, Call, Context, complete_call, data_call, write, start_request,
  complete_request_async, abort_request,
}
use libubus_jni.Libubus.Request.Answer.{process_req_msg}
use libubus_jni.Libubus.Request.Due.{apart}

-- `struct ubus_wrap_context` but for its request: `retval` is `none` for -1; `flags` has the bits
-- FLAG_REQ_PENDING and FLAG_RET_PENDING.
pub record Wrap : Type 0 where
  pub index : ℕ
  pub result : Option CString
  pub retval : Option ℕ
  pub is_return : Bool
  pub req_pending : Bool
  pub ret_pending : Bool

-- The static variables: the blocks that `wrap` of a `struct ubus_jni_context` points to, by that
-- context; the list `_ubus_return_reqs`; whether `bus_handle` is set, and what it points to. The
-- request of a block has the same address there.
pub record Wrapper : Type 0 where
  pub wraps : List (ℕ × Wrap)
  pub returns : List ℕ
  pub connected : Bool
  pub ctx : Context

-- A block from `calloc`.
abbrev pub blank : Wrap
blank = record {
  index = 0;
  result = none;
  retval = some 0;
  is_return = false;
  req_pending = false;
  ret_pending = false;
}

abbrev pub blank_request : Request
blank_request = record {
  seq = 0;
  peer = 0;
  status_msg = false;
  status_code = 0;
  blocked = false;
  cancelled = false;
  notify = false;
  complete_cb = Complete.absent;
  data_cb = false;
  raw_data_cb = false;
  fd_cb = false;
  pending = [];
  bits = [];
  ids = [];
  status_cb = false;
  notify_complete_cb = false;
}

-- `wrap_context`
unfoldable pub wrap_context : ℕ → Wrapper → Wrapper
wrap_context u W = elim (find u W.wraps) [
  | some _ ↦ W
  | none ↦ record W {
    wraps = (u, blank) ∷ W.wraps;
    ctx = record W.ctx { memory = (u, blank_request) ∷ W.ctx.memory };
  }
]

-- `ubus_wrap_get_result`
unfoldable pub get_result : ℕ → Wrapper → Option CString
get_result u W = find u W.wraps >>= λ w. w.result

-- A block goes to the end of `_ubus_return_reqs`, with its `retval`.
abbrev pub returning : Option ℕ → Wrap → Wrap
returning ret w = record w { is_return = true; retval = ret; ret_pending = true }

-- `ubus_sync_req_cb`
unfoldable pub sync_req_cb : ℕ → ℕ → Wrapper → Wrapper
sync_req_cb u ret W = record W {
  wraps = update u (λ w. record (returning (some ret) w) { req_pending = false }) W.wraps;
  returns = W.returns ++ (u ∷ []);
}

-- `recv_cb_json_out`, where `format` is blobmsg_format_json.
unfoldable pub recv_cb_json_out : (Option Blob → CString) → ℕ → Incoming → Wrapper → Wrapper
recv_cb_json_out format u m W = record W {
  wraps = update u (λ w. record w { result = some (format m.payload) }) W.wraps;
}

-- The functions that libubus calls.
abbrev pub on_call : (Option Blob → CString) → Call → Wrapper → Wrapper
on_call format (complete_call u ret) W = sync_req_cb u ret W
on_call format (data_call u m) W = recv_cb_json_out format u m W
on_call format _ W = W

-- In the order of the calls; a log has the latest first.
unfoldable pub on_calls : (Option Blob → CString) → List Call → Wrapper → Wrapper
unfolding sync_req_cb recv_cb_json_out
on_calls format [] W = W
on_calls format (x ∷ xs) W = on_call format x (on_calls format xs W)

abbrev pub quiet_log : Context → Context
quiet_log c = record c { log = [] }

-- Messages for requests come in while libubus polls, each with a descriptor.
unfoldable pub receive :
    (Option Blob → CString) → ℕ → List (Incoming × Option ℕ) → Wrapper → Option Wrapper
unfolding on_calls
receive format fuel [] W = some W
receive format fuel ((m, fd) ∷ ms) W = do
  c ← process_req_msg apart fuel m fd (quiet_log W.ctx)
  receive format fuel ms (on_calls format c.log (record W { ctx = c }))

-- What the calls of libubus in `ubus_wrap_invoke` give: whether it connects, what comes in for other
-- requests during `ubus_lookup_id`, the id that this gives, and whether the message fits and is sent.
pub record Attempt : Type 0 where
  pub connects : Bool
  pub meanwhile : List (Incoming × Option ℕ)
  pub found : Option ℕ
  pub fits : Bool
  pub sent : Bool

-- The label `invoke_fail`; the result is -1.
unfoldable pub invoke_fail : ℕ → Wrapper → Bool × Wrapper
invoke_fail u W =
    (false, record W { wraps = update u (returning none) W.wraps; returns = W.returns ++ (u ∷ []) })

-- A request that is sent: its functions are set, and it waits.
unfoldable pub await : ℕ → Wrapper → Wrapper
await u W = record W {
  wraps = update u (λ w. record w { req_pending = true }) W.wraps;
  ctx =
      complete_request_async u
        (write u (λ q. record q { complete_cb = Complete.application; data_cb = true }) W.ctx);
}

-- The part of `ubus_wrap_invoke` behind the lookup.
unfoldable pub invoke_found : ℕ → Attempt → Wrapper → Bool × Wrapper
unfolding invoke_fail await start_request
invoke_found u t W = elim t.found [
  | none ↦ invoke_fail u W
  | some id ↦
      let (ok, c) = start_request t.fits t.sent u id W.ctx in
      if ok then (true, await u (record W { ctx = c })) else invoke_fail u (record W { ctx = c })
]

-- `ubus_wrap_invoke`, with `ubus_wrap_init`: whether it returns 0. The request of the lookup takes a
-- sequence number. `none` is the `assert` on `flags`, or a fault of libubus.
unfoldable pub invoke :
    (Option Blob → CString) → ℕ → ℕ → ℕ → Attempt → Wrapper → Option (Bool × Wrapper)
unfolding wrap_context invoke_fail receive invoke_found
invoke format fuel u index t W = do
  let W0 = wrap_context u W
  w ← find u W0.wraps
  let W1 = record W0 {
    wraps = update u (λ x. record x { index = index }) W0.wraps;
    connected = W0.connected || t.connects;
  }
  let go = do
    W2 ← receive format fuel t.meanwhile W1
    some (
        invoke_found u t
          (record W2 { ctx = record W2.ctx { request_seq = (W2.ctx.request_seq + 1) % u16_mod } }))
  let connected = if W1.connected then go else some (invoke_fail u W1)
  if w.req_pending || w.ret_pending then none else connected

-- The loop of `ubus_wrap_fetch_return`, for the room that is left and the rest of the list.
unfoldable pub take_returns : ℕ → List ℕ → Wrapper → Option (List ℕ × Wrapper)
take_returns zero us W = some ([], record W { returns = us })
take_returns (suc room) [] W = some ([], record W { returns = [] })
take_returns (suc room) (u ∷ us) W = do
  w ← find u W.wraps
  (is, W1) ←
      take_returns room us
        (record W { wraps = update u (λ x. record x { ret_pending = false }) W.wraps })
  some (w.index ∷ is, W1)

-- `ubus_wrap_fetch_return`, with what comes in during `uloop_run`.
unfoldable pub fetch_return :
    (Option Blob → CString)
    → ℕ
    → ℕ
    → List (Incoming × Option ℕ)
    → Wrapper
    → Option (List ℕ × Wrapper)
unfolding receive take_returns
fetch_return format fuel size ms W = do
  W1 ← elim W.returns as (λ _. Option Wrapper) [ [] ↦ receive format fuel ms W | _ ↦ some W ]
  take_returns size W1.returns W1

-- A block that is freed.
unfoldable pub without {ℓ} : {A : Type ℓ} → ℕ → List (ℕ × A) → List (ℕ × A)
without u [] = []
without u ((k, a) ∷ t) = let rest = without u t in if k == u then rest else (k, a) ∷ rest

-- `ubus_wrap_release`
unfoldable pub release : (Option Blob → CString) → ℕ → ℕ → Wrapper → Option Wrapper
unfolding on_calls remove_first without
release format fuel u W = elim (find u W.wraps) [
  | none ↦ some W
  | some w ↦ do
    let aborted = do
      c ← abort_request apart fuel u (quiet_log W.ctx)
      some (on_calls format c.log (record W { ctx = c }))
    W1 ← (if w.req_pending then (if W.connected then aborted else none) else some W)
    w1 ← find u W1.wraps
    some (record W1 {
      wraps = without u W1.wraps;
      returns = if w1.ret_pending then remove_first u W1.returns else W1.returns;
      ctx = record W1.ctx { memory = without u W1.ctx.memory };
    })
]
