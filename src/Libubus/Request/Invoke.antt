-- ===== src/Libubus/Request/Invoke.antt =====
-- ubus/libubus-req.c: the call of a method, from its message to its status.
use libubus_jni.Prelude.{
  ℕ, ◌+◌, ◌%◌, ◌≡◌, refl, Bool, true, false, List, [], ◌∷◌, ◌++◌, Option, none, some, if◌then◌else◌,
}
use libubus_jni.Libubox.Text.{CString}
use libubus_jni.Libubox.Tree.{update, id_ord}
use libubus_jni.Ubusd.Message.{Blob, Field, put_objid, put_method, put_data, u16_mod}
use libubus_jni.Libubus.Request.{
  Incoming, Request, Context, App, request, write, start_request, cleared, status_or, is_listed,
}
use libubus_jni.Libubus.Request.Waiting.{Round, Waiter, is_over, complete_request}
use libubus_jni.Libubus.Request.Waiting.Rounds.{AllIdle, waiting_on, deadline, find-written}
use libubus_jni.Libubus.Request.Waiting.Returned.{Restored, IsStarted, complete_request-answered}

-- The attributes of the message of `ubus_invoke_async`.
unfoldable pub invoke_fields : ℕ → CString → Option Blob → List Field
invoke_fields obj method msg =
    put_objid obj ∷ put_method method ∷ elim msg [ none ↦ [] | some b ↦ put_data b ∷ [] ]

-- `ubus_invoke`, with `ubus_invoke_async`: the request `r` stands in memory, and whether `cb` is set
-- is passed in.
unfoldable pub invoke :
    App → ℕ → Bool → Bool → Bool → ℕ → ℕ → List Round → ℕ → ℕ → Waiter → Option (Option ℕ × Waiter)
invoke A fuel fits sent cb timeout start rounds obj r w =
    let (ok, c) = start_request fits sent r obj w.ctx in
    let w1 = record w { ctx = write r (λ x. record x { data_cb = cb }) c } in
    let done = complete_request A fuel timeout start rounds r w1 in
    if ok then done else some (some 2, record w { ctx = c })

-- The context when the message has been sent.
abbrev pub sent_off : Bool → ℕ → ℕ → Context → Context
sent_off cb r obj c =
    let seq = (c.request_seq + 1) % u16_mod in
    record c {
      request_seq = seq;
      memory =
          update r (λ x. record x { data_cb = cb })
            (update r (λ x. record (cleared x) { seq = seq; peer = obj }) c.memory);
    }

-- `ubus_invoke` of a method of an object, with a request in memory that is on no list, sends its
-- message; rounds that bring nothing for a request of the list come before the time is over, and
-- then, before it is over too, the status alone with the sequence number of the call and the
-- object as its peer: the call comes to its end without a fault with the status of that message,
-- or UBUS_STATUS_INVALID_ARGUMENT where it has none, and the list of requests, the depth and the
-- registration of the socket are as before; the event loop is told to end exactly if it was before
-- or another wait is around this one, and the waiting messages are processed exactly if none is
-- and the socket was not registered.
pub invoke-answered :
    (A : App) (fuel timeout start obj r : ℕ) (cb : Bool) (idle rest : List Round) (t : Round)
    (w : Waiter) (q : Request) (m : Incoming)
    → request r w.ctx ≡ some q
    → is_listed r w.ctx.requests ≡ false
    → AllIdle (deadline timeout start) (waiting_on r (sent_off cb r obj w.ctx)) idle
    → is_over (deadline timeout start) t.now ≡ false
    → t.messages ≡ (m, none) ∷ []
    → m.is_status ≡ true
    → m.seq ≡ (w.ctx.request_seq + 1) % u16_mod
    → m.peer ≡ obj
    → (w1 : Waiter) × (invoke A fuel true true cb timeout start (idle ++ t ∷ rest) obj r w
        ≡ some (some (status_or 2 m), w1))
      × Restored w w1
unfolding invoke start_request write request
invoke-answered A fuel timeout start obj r cb idle rest t w q m h l s o ms st es ep =
    let seq = (w.ctx.request_seq + 1) % u16_mod in
    let q1 : Request = record (cleared q) { seq = seq; peer = obj; data_cb = cb } in
    let g =
      find-written r (λ x. record x { data_cb = cb }) _ _
        (find-written r (λ x. record (cleared x) { seq = seq; peer = obj }) w.ctx.memory q h) in
    let i : IsStarted r q1 (sent_off cb r obj w.ctx) = record {
      stored = g;
      status_msg = refl;
      blocked = refl;
      complete_cb = refl;
      unlisted = l;
    } in
    let (w1, e, k) =
      complete_request-answered A fuel timeout start r idle rest t
        (record w { ctx = sent_off cb r obj w.ctx }) q1 i s m refl o ms st es ep in
    (
      w1,
      e,
      record {
        requests = k.requests;
        stack_depth = k.stack_depth;
        registered = k.registered;
        nested = k.nested;
        outermost = k.outermost;
      },
    )
