-- ===== src/Libubus/Request/Notify.antt =====
-- ubus/libubus-req.c: ubus_notify, and what becomes of a notification that cannot be sent.
use libubus_jni.Prelude.{
  ℕ, ◌+◌, ◌%◌, ◌≤◌, ◌≡◌, ◌≢◌, refl, Bool, true, false, List, ◌∷◌, ◌++◌, Option, none, some, ◌>>=◌,
  if◌then◌else◌, replicate,
}
use libubus_jni.Libubox.Tree.{id_ord}
use libubus_jni.Ubusd.Message.{u16_mod}
use libubus_jni.Libubus.Request.{
  Request, Context, App, request, write, cleared, start_request, notify_async, abort_request,
  is_listed,
}
use libubus_jni.Libubus.Request.Waiting.{Round, Waiter, complete_request}
use libubus_jni.Libubus.Request.Waiting.Rounds.{AllIdle, waiting_on, deadline, find-written}
use libubus_jni.Libubus.Request.Waiting.Returned.{IsStarted, complete_request-over}

-- `ubus_notify`, where a timeout below 0 is `none`. No status of `__ubus_notify_async` is below 0, so
-- that `ret < 0` does not hold. A message that is too long leaves the two lists of the request
-- without heads: then the code follows a pointer NULL, or waits without end.
unfoldable pub notify :
    App → ℕ → Bool → Bool → Option ℕ → ℕ → List Round → ℕ → ℕ → Waiter → Option (Option ℕ × Waiter)
unfolding notify_async abort_request
notify A fuel fits sent timeout start rounds obj r w =
    let (ret, c) = notify_async fits sent r obj w.ctx in
    let go : Option (Option ℕ × Waiter) = elim timeout [
      | none ↦ abort_request A fuel r c >>= λ c1. some (some 0, record w { ctx = c1 })
      | some t ↦ complete_request A fuel t start rounds r (record w { ctx = c })
    ] in
    if fits then go else none

-- What a notification sets up before it is sent.
abbrev prepared : Request → Request
prepared x = record x {
  bits = replicate 32 false;
  ids = replicate 17 0;
  status_cb = false;
  notify_complete_cb = false;
}

-- Where the message cannot be sent, the request is as if it had been.
unsent-IsStarted :
    (r obj : ℕ) (c : Context) (q : Request)
    → request r c ≡ some q
    → is_listed r c.requests ≡ false
    → (q1 : Request) × IsStarted r q1 (notify_async true false r obj c).1
unfolding notify_async start_request write request
unsent-IsStarted r obj c q h l =
    let seq = (c.request_seq + 1) % u16_mod in
    let sent_to : Request → Request = λ x. record (cleared x) { seq = seq; peer = obj } in
    (
      sent_to (prepared q),
      record {
        stored = find-written r sent_to _ _ (find-written r prepared c.memory q h);
        status_msg = refl;
        blocked = refl;
        complete_cb = refl;
        unlisted = l;
      },
    )

abort_request-unlisted :
    (A : App) (fuel r : ℕ) (c : Context)
    → is_listed r c.requests ≡ false
    → abort_request A fuel r c ≡ some c
unfolding abort_request
abort_request-unlisted A fuel r c l = rw (l, abort_request) refl

-- The message of a notification is not too long but cannot be sent, its request is in memory and
-- on no list, and only rounds that bring nothing for a request of the list come before the time is
-- over: with a timeout that is not 0 `ubus_notify` still waits for an answer, and returns
-- UBUS_STATUS_TIMEOUT in the first round after it; with a timeout below 0 it returns 0. In neither
-- case does it report that nothing has been sent.
pub notify-unsent :
    (A : App) (fuel timeout start obj r : ℕ) (idle rest : List Round) (t : Round) (w : Waiter)
    (q : Request)
    → request r w.ctx ≡ some q
    → is_listed r w.ctx.requests ≡ false
    → timeout ≢ 0
    → AllIdle (deadline timeout start) (waiting_on r (notify_async true false r obj w.ctx).1) idle
    → start + timeout ≤ t.now
    → (w1 w2 : Waiter) × (notify A fuel true false (some timeout) start (idle ++ t ∷ rest) obj r w
        ≡ some (some 7, w1))
      × (notify A fuel true false none start (idle ++ t ∷ rest) obj r w ≡ some (some 0, w2))
unfolding notify
notify-unsent A fuel timeout start obj r idle rest t w q h l nz s over =
    let c = (notify_async true false r obj w.ctx).1 in
    let w0 = record w { ctx = c } in
    let (q1, i) = unsent-IsStarted r obj w.ctx q h l in
    let (w1, e, _) = complete_request-over A fuel timeout start r idle rest t w0 q1 i s nz over in
    (w1, w0, e, rw (abort_request-unlisted A fuel r c i.unlisted) refl)
