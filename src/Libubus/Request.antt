-- ===== src/Libubus/Request.antt =====
-- ubus/libubus-req.c: the requests of a client and what answers them.
pub mod Agreed
pub mod Answer
pub mod Due
pub mod Invoke
pub mod Notify
pub mod Outstanding
pub mod Started
pub mod Waiting
use libubus_jni.Prelude.{
  ℕ, zero, suc, ◌+◌, ◌%◌, Bool, true, false, List, [], ◌∷◌, Option, none, some, if◌then◌else◌,
  ◌>>=◌, ◌==◌, not, ◌||◌, set, get_or, replicate,
}
use libubus_jni.Libubox.Tree.{find, update, id_ord}
use libubus_jni.Ubusd.Message.{Blob, u16_mod}
use libubus_jni.Ubusd.State.{remove_first}

-- What `complete_cb` of a request points to: nothing, a function of the application,
-- `ubus_notify_complete_cb`, or `ubus_sync_req_cb`.
pub data Complete : Type 0 where
  absent application of_notify synchronous : Complete

-- A message that comes in: type, sequence number and peer of its header, and the attributes that
-- requests read. Of "subscribers" an element is `none` where it is no 32-bit number.
pub record Incoming : Type 0 where
  pub is_status : Bool
  pub seq : ℕ
  pub peer : ℕ
  pub status : Option ℕ
  pub payload : Option Blob
  pub subscribers : Option (List (Option ℕ))

-- `struct ubus_request`, and behind it what a `struct ubus_notify_request` adds. A pointer to a
-- function of the application is given by whether it is set. `bits` is the word `pending` of the
-- latter, lowest bit first, `ids` its array `id`.
pub record Request : Type 0 where
  pub seq : ℕ
  pub peer : ℕ
  pub status_msg : Bool
  pub status_code : ℕ
  pub blocked : Bool
  pub cancelled : Bool
  pub notify : Bool
  pub complete_cb : Complete
  pub data_cb : Bool
  pub raw_data_cb : Bool
  pub fd_cb : Bool
  pub pending : List Incoming
  pub bits : List Bool
  pub ids : List ℕ
  pub status_cb : Bool
  pub notify_complete_cb : Bool

-- A call of a function of the application (for the request with this address), the end of the
-- event loop, or `close`.
pub data Call : Type 0 where
  raw_data_call data_call : ℕ → Incoming → Call
  complete_call notify_status_call : ℕ → ℕ → Call
  notify_complete_call : ℕ → Call
  fd_call : ℕ → ℕ → Call
  loop_end : Call
  close_call : ℕ → Call

-- `struct ubus_context` as requests use it: the memory of the requests by their addresses, the list
-- `requests`, and the calls made, the latest first.
pub record Context : Type 0 where
  pub memory : List (ℕ × Request)
  pub requests : List ℕ
  pub request_seq : ℕ
  pub log : List Call

-- The functions of the application, by what they do to the context.
abbrev pub App : Type 0
App = Call → Context → Context

unfoldable pub request : ℕ → Context → Option Request
request r c = find r c.memory

-- A write to fields of a request.
unfoldable pub write : ℕ → (Request → Request) → Context → Context
write r f c = record c { memory = update r f c.memory }

unfoldable pub call : App → Call → Context → Context
call A x c = A x (record c { log = x ∷ c.log })

-- `ubus_req_complete_cb`, with `ubus_notify_complete_cb` and `ubus_sync_req_cb`.
unfoldable pub req_complete_cb : App → ℕ → Context → Option Context
unfolding request write call
req_complete_cb A r c = do
  q ← request r c
  let c1 = write r (λ x. record x { complete_cb = Complete.absent }) c
  elim q.complete_cb [
    | Complete.absent ↦ some c
    | Complete.application ↦ some (call A (complete_call r q.status_code) c1)
    | Complete.of_notify ↦
        some (if q.notify_complete_cb then call A (notify_complete_call r) c1 else c1)
    | Complete.synchronous ↦
        let c2 = write r (λ x. record x { status_msg = true; status_code = q.status_code }) c1 in
        some (record c2 { log = loop_end ∷ c2.log })
  ]

-- `ubus_set_req_status`
unfoldable pub set_req_status : App → ℕ → ℕ → Context → Option Context
unfolding request write remove_first req_complete_cb
set_req_status A r ret c = do
  q ← request r c
  let c1 = record c { requests = remove_first r c.requests }
  let c2 = write r (λ x. record x { status_msg = true; status_code = ret }) c1
  let done = req_complete_cb A r c2
  if q.blocked then some c2 else done

-- `ubus_get_status`, and the value that `ubus_process_req_status` has for a missing one.
abbrev pub status_or : ℕ → Incoming → ℕ
status_or ret m = elim m.status [ none ↦ ret | some s ↦ s ]

-- `ubus_process_req_status`
unfoldable pub process_req_status : App → ℕ → Incoming → Context → Option Context
unfolding write set_req_status
process_req_status A r m c =
    set_req_status A r (status_or 2 m) (write r (λ x. record x { peer = m.peer }) c)

-- `req_data_cb`
unfoldable pub req_data_cb : App → ℕ → Incoming → Context → Option Context
unfolding request call
req_data_cb A r m c = do
  q ← request r c
  let c1 = if q.raw_data_cb then call A (raw_data_call r m) c else c
  q1 ← request r c1
  some (if q1.data_cb then call A (data_call r m) c1 else c1)

-- `__ubus_process_req_data`, on fuel, since the calls may add to the list; `none` also when it runs
-- out.
unfoldable pub process_pending : App → ℕ → ℕ → Context → Option Context
unfolding request write req_data_cb
process_pending A zero r c = none
process_pending A (suc fuel) r c = do
  q ← request r c
  elim q.pending [
    | [] ↦ some c
    | m ∷ ms ↦ do
      let c1 = write r (λ x. record x { pending = ms }) c
      c2 ← (if q.cancelled then some c1 else req_data_cb A r m c1)
      process_pending A fuel r c2
  ]

-- `ubus_process_req_data`
unfoldable pub process_req_data : App → ℕ → ℕ → Incoming → Context → Option Context
unfolding request write req_data_cb process_pending req_complete_cb
process_req_data A fuel r m c = do
  q ← request r c
  let later = write r (λ x. record x { pending = m ∷ x.pending }) c
  let now = do
    c1 ← req_data_cb A r m (write r (λ x. record x { blocked = true }) c)
    c2 ← process_pending A fuel r c1
    let c3 = write r (λ x. record x { blocked = false }) c2
    q3 ← request r c3
    let done = req_complete_cb A r c3
    if q3.status_msg then done else some c3
  if q.blocked then some later else now

-- A request after `memset(req, 0, sizeof(*req))`, which leaves what a notification adds.
abbrev pub cleared : Request → Request
cleared x = record x {
  seq = 0;
  peer = 0;
  status_msg = false;
  status_code = 0;
  blocked = false;
  cancelled = false;
  notify = false;
  complete_cb = Complete.absent;
  data_cb = false;
  raw_data_cb = false;
  fd_cb = false;
  pending = [];
}

-- `ubus_start_request`: whether the message is no longer than UBUS_MAX_MSGLEN, and what
-- `ubus_send_msg` gives, are passed in. False is the result -1.
unfoldable pub start_request : Bool → Bool → ℕ → ℕ → Context → Bool × Context
unfolding write
start_request fits sent r peer c =
    let seq = (c.request_seq + 1) % u16_mod in
    let c1 = record c { request_seq = seq } in
    if fits
    then (sent, write r (λ x. record (cleared x) { seq = seq; peer = peer }) c1)
    else (false, write r cleared c)

-- `__ubus_notify_async`: the status that it returns, and the request, which waits for ubusd's own
-- status first.
unfoldable pub notify_async : Bool → Bool → ℕ → ℕ → Context → ℕ × Context
unfolding start_request write
notify_async fits sent r obj c =
    let c1 =
      write r
        (λ x. record x {
          bits = replicate 32 false;
          ids = replicate 17 0;
          status_cb = false;
          notify_complete_cb = false;
        })
        c in
    let (ok, c2) = start_request fits sent r obj c1 in
    if ok
    then (
      0,
      write r
          (λ x. record x {
            notify = true;
            bits = true ∷ replicate 31 false;
            ids = obj ∷ replicate 16 0;
            complete_cb = Complete.of_notify;
          })
          c2,
    )
    else (2, c2)

abbrev pub is_listed : ℕ → List ℕ → Bool
is_listed r [] = false
is_listed r (x ∷ xs) = r == x || is_listed r xs

-- `ubus_complete_request_async`
unfoldable pub complete_request_async : ℕ → Context → Context
complete_request_async r c =
    if is_listed r c.requests then c else record c { requests = r ∷ c.requests }

-- `ubus_abort_request`
unfoldable pub abort_request : App → ℕ → ℕ → Context → Option Context
unfolding write process_pending remove_first
abort_request A fuel r c =
    let go = do
      c1 ← process_pending A fuel r (write r (λ x. record x { cancelled = true }) c)
      some (record c1 { requests = remove_first r c1.requests })
    in if is_listed r c.requests then go else some c
