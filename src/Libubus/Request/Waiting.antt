-- ===== src/Libubus/Request/Waiting.antt =====
-- ubus/libubus-req.c: `ubus_complete_request`, which waits until a request has its status.
pub mod Rounds
pub mod Tests
pub mod Returned
use libubus_jni.Prelude.{
  ℕ, zero, suc, ◌+◌, ◌-◌, Bool, true, false, List, [], ◌∷◌, Option, none, some, if◌then◌else◌,
  ◌>>=◌, ◌==◌, not, leb,
}
use libubus_jni.Libubus.Request.{
  Incoming, Request, Complete, complete_call, notify_complete_call, loop_end, Context, App, request,
  write, call, set_req_status, complete_request_async,
}
use libubus_jni.Libubus.Request.Answer.{process_req_msg}

-- One round of the loop: the time of the clock at its start in milliseconds, and the messages for
-- requests that `ubus_poll_data` then gets, each with the descriptor that it brings.
pub record Round : Type 0 where
  pub now : ℕ
  pub messages : List (Incoming × Option ℕ)

-- `struct ubus_context` as the loop uses it, with the static `uloop_cancelled`: whether the socket
-- is registered, and how often `pending_timer.cb` was called at the end of a request.
pub record Waiter : Type 0 where
  pub ctx : Context
  pub stack_depth : ℕ
  pub registered : Bool
  pub uloop_cancelled : Bool
  pub pending_runs : ℕ

-- `ubus_poll_data`, by the messages for requests that it hands on.
unfoldable pub poll_data : App → ℕ → List (Incoming × Option ℕ) → Context → Option Context
poll_data A fuel [] c = some c
poll_data A fuel ((m, fd) ∷ ms) c = process_req_msg A fuel m fd c >>= poll_data A fuel ms

-- Whether `time_end` is reached; without a timeout there is none.
abbrev pub is_over : Option ℕ → ℕ → Bool
is_over none now = false
is_over (some time_end) now = leb time_end now

-- The loop, with whether it has come to its end; UBUS_STATUS_TIMEOUT is 7. `uloop_cancelled` is
-- cleared for a round only, and has its value back behind it.
unfoldable pub wait : App → ℕ → Option ℕ → ℕ → List Round → Waiter → Option (Bool × Waiter)
wait A fuel time_end r [] w = request r w.ctx >>= λ q. some (q.status_msg, w)
wait A fuel time_end r (t ∷ ts) w = do
  q ← request r w.ctx
  let timed_out = set_req_status A r 7 w.ctx >>= λ c. some (true, record w { ctx = c })
  let polled = do
    c ← poll_data A fuel t.messages w.ctx
    wait A fuel time_end r ts (record w { ctx = c })
  if q.status_msg then some (true, w) else if is_over time_end t.now then timed_out else polled

-- `req->complete_cb(req, status)`
unfoldable pub call_complete : App → ℕ → ℕ → Complete → Context → Option Context
call_complete A r status Complete.absent c = some c
call_complete A r status Complete.application c = some (call A (complete_call r status) c)
call_complete A r status Complete.of_notify c = request r c >>= λ q.
    some (if q.notify_complete_cb then call A (notify_complete_call r) c else c)
call_complete A r status Complete.synchronous c =
    let c1 = write r (λ x. record x { status_msg = true; status_code = status }) c in
    some (record c1 { log = loop_end ∷ c1.log })

-- The part of `ubus_complete_request` behind the loop; UBUS_STATUS_NO_DATA is 5.
unfoldable pub complete_end : App → ℕ → Complete → Bool → Waiter → Option (ℕ × Waiter)
complete_end A r complete_cb registered w = do
  q ← request r w.ctx
  let depth = w.stack_depth - 1
  let status = if q.status_msg then q.status_code else 5
  let nested = not (depth == 0)
  c ←
      call_complete A r status complete_cb
        (write r (λ x. record x { complete_cb = complete_cb }) w.ctx)
  some (
    status,
    record {
      ctx = c;
      stack_depth = depth;
      registered = registered;
      uloop_cancelled = if nested then true else w.uloop_cancelled;
      pending_runs =
          if registered
          then w.pending_runs
          else if nested
          then w.pending_runs
          else suc w.pending_runs;
    },
  )

-- `ubus_complete_request`, with the time at its start; the status is `none` where it waits still
-- when the rounds end. A timeout is not negative.
unfoldable pub complete_request :
    App → ℕ → ℕ → ℕ → List Round → ℕ → Waiter → Option (Option ℕ × Waiter)
complete_request A fuel req_timeout start rounds r w = do
  q ← request r w.ctx
  let time_end = if req_timeout == 0 then none else some (start + req_timeout)
  let c1 = complete_request_async r w.ctx
  (over, w1) ← wait A fuel time_end r rounds (record w {
    ctx = write r (λ x. record x { complete_cb = Complete.synchronous }) c1;
    stack_depth = suc w.stack_depth;
    registered = true;
  })
  let done = complete_end A r q.complete_cb w.registered w1 >>= λ (s, w2). some (some s, w2)
  if over then done else some (none, w1)
