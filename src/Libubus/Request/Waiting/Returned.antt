-- ===== src/Libubus/Request/Waiting/Returned.antt =====
-- What `ubus_complete_request` returns, and what it puts back (ubus/libubus-req.c).
use libubus_jni.Prelude.{
  ℕ, suc, ◌+◌, ◌-◌, ◌≤◌, ◌≡◌, ◌≢◌, refl, ◌∙◌, arith, true, false, List, [], ◌∷◌, ◌++◌, none, some,
  if◌then◌else◌, ◌==◌, not,
}
use libubus_jni.Libubox.Tree.{update, id_ord}
use libubus_jni.Ubusd.State.{remove_first}
use libubus_jni.Libubus.Request.{
  Incoming, Request, Complete, Context, App, request, write, status_or, is_listed,
  complete_request_async,
}
use libubus_jni.Libubus.Request.Waiting.{
  Round, Waiter, is_over, wait, call_complete, complete_end, complete_request,
}
use libubus_jni.Libubus.Request.Waiting.Rounds.{
  AllIdle, synced, deadline, waiting_on, uncalled, settled, from_peer, wait-AllIdle, wait-answered,
  wait-over, find_request-first, request-settled, find-written,
}

-- The state at the start of the loop.
abbrev pub started : ℕ → Waiter → Waiter
started r w = record w {
  ctx = waiting_on r w.ctx;
  stack_depth = suc w.stack_depth;
  registered = true;
}

-- The wait has left the list of requests, the depth and the registration of the socket as they
-- were; within another wait the event loop is told to end, and at the end of the outermost one
-- `pending_timer.cb` is called unless the socket was registered.
pub record Restored (w w1 : Waiter) : Type 0 where
  pub requests : w1.ctx.requests ≡ w.ctx.requests
  pub stack_depth : w1.stack_depth ≡ w.stack_depth
  pub registered : w1.registered ≡ w.registered
  pub nested : w.stack_depth ≢ 0 → (w1.uloop_cancelled ≡ true) × (w1.pending_runs ≡ w.pending_runs)
  pub outermost :
      w.stack_depth ≡ 0
      → (w1.uloop_cancelled ≡ w.uloop_cancelled)
        × (w1.pending_runs ≡ (if w.registered then w.pending_runs else suc w.pending_runs))

-- A request that `ubus_start_request` has prepared, on no list.
pub record IsStarted (r : ℕ) (q : Request) (c : Context) : Type 0 where
  pub stored : request r c ≡ some q
  pub status_msg : q.status_msg ≡ false
  pub blocked : q.blocked ≡ false
  pub complete_cb : q.complete_cb ≡ Complete.absent
  pub unlisted : is_listed r c.requests ≡ false

-- The state at the end, where the loop leaves the context `c`.
abbrev ended : ℕ → Waiter → Context → Waiter
ended r w c =
    let nested = not (w.stack_depth == 0) in
    record {
      ctx = record c { memory = update r uncalled c.memory };
      stack_depth = w.stack_depth;
      registered = w.registered;
      uloop_cancelled = if nested then true else w.uloop_cancelled;
      pending_runs =
          if w.registered
          then w.pending_runs
          else if nested
          then w.pending_runs
          else suc w.pending_runs;
    }

ended-Restored :
    (r : ℕ) (w : Waiter) (c : Context) → c.requests ≡ w.ctx.requests → Restored w (ended r w c)
ended-Restored r w c e = record {
  requests = e;
  stack_depth = refl;
  registered = refl;
  nested = λ d. (ground arith, ground arith);
  outermost = λ d. (ground arith, ground arith);
}

complete_end-ended :
    (A : App) (r code : ℕ) (w : Waiter) (c : Context) (q : Request)
    → request r c ≡ some q
    → q.status_msg ≡ true
    → q.status_code ≡ code
    → complete_end A r Complete.absent w.registered (record (started r w) { ctx = c })
      ≡ some (code, ended r w c)
unfolding complete_end call_complete write
complete_end-ended A r code w c q h s e =
    let depth : suc w.stack_depth - 1 ≡ w.stack_depth = omega arith in
    rw (h, complete_end) (rw (s, e) (rw depth refl))

complete_request-ended :
    (A : App) (fuel timeout start r : ℕ) (rounds : List Round) (w : Waiter) (q q1 : Request)
    (c : Context) (code : ℕ)
    → IsStarted r q w.ctx
    → wait A fuel (deadline timeout start) r rounds (started r w)
      ≡ some (true, record (started r w) { ctx = c })
    → request r c ≡ some q1
    → q1.status_msg ≡ true
    → q1.status_code ≡ code
    → complete_request A fuel timeout start rounds r w ≡ some (some code, ended r w c)
unfolding complete_request complete_request_async write
complete_request-ended A fuel timeout start r rounds w q q1 c code i e h s k =
    rw (i.stored, complete_request)
      (rw (i.unlisted) (rw (e) (rw (i.complete_cb, complete_end-ended A r code w c q1 h s k) refl)))

-- The request that is waited for.
waited :
    (r : ℕ) (c : Context) (q : Request)
    → request r c ≡ some q
    → request r (waiting_on r c) ≡ some (synced q)
unfolding request
waited r c q h = find-written r synced c.memory q h

remove_first_self : (r : ℕ) (rs : List ℕ) → remove_first r (r ∷ rs) ≡ rs
unfolding remove_first
remove_first_self r rs = ground arith

module _ (A : App) (fuel timeout start r : ℕ) (idle rest : List Round) (t : Round) (w : Waiter)
    (q : Request) (i : IsStarted r q w.ctx)
    (s : AllIdle (deadline timeout start) (waiting_on r w.ctx) idle) where
  -- The request comes to its end with the status that its peer sends.
  pub complete_request-answered :
      (m : Incoming)
      → q.notify ≡ false
      → is_over (deadline timeout start) t.now ≡ false
      → t.messages ≡ (m, none) ∷ []
      → m.is_status ≡ true
      → m.seq ≡ q.seq
      → m.peer ≡ q.peer
      → (w1 : Waiter) × (complete_request A fuel timeout start (idle ++ t ∷ rest) r w
          ≡ some (some (status_or 2 m), w1))
        × Restored w w1
  unfolding request
  complete_request-answered m n o ms st es ep =
      let code = status_or 2 m in
      let c0 = waiting_on r w.ctx in
      let h = waited r w.ctx q i.stored in
      let c1 = from_peer m.peer r c0 in
      let g = find-written r (λ x. record x { peer = m.peer }) c0.memory (synced q) h in
      let f =
        find_request-first r (record c0 { requests = w.ctx.requests }) (synced q) m.seq m.peer h n
          es ep in
      let e =
        wait-AllIdle A fuel (deadline timeout start) r idle (t ∷ rest) (started r w) (synced q) h
          i.status_msg s
        ∙ wait-answered A fuel (deadline timeout start) r t rest (started r w) (synced q) m h
            i.status_msg i.blocked refl f o ms st in
      (
        ended r w (settled r code c1),
        complete_request-ended A fuel timeout start r (idle ++ t ∷ rest) w q _ (settled r code c1)
            code i e (request-settled r code c1 _ g) refl refl,
        ended-Restored r w (settled r code c1) (remove_first_self r w.ctx.requests),
      )

  -- A request that has been started and is on no list is waited for with a timeout that is not 0,
  -- and only rounds that bring nothing for a request of the list come before the time is over: in
  -- the first round after it `ubus_complete_request` returns UBUS_STATUS_TIMEOUT without a fault
  -- and without reading more, and the list of requests, the depth and the registration of the
  -- socket are as before; the event loop is told to end exactly if it was before or another wait
  -- is around this one, and the waiting messages are processed exactly if none is and the socket
  -- was not registered.
  pub complete_request-over :
      timeout ≢ 0
      → start + timeout ≤ t.now
      → (w1 : Waiter) × (complete_request A fuel timeout start (idle ++ t ∷ rest) r w
          ≡ some (some 7, w1))
        × Restored w w1
  complete_request-over n l =
      let o : is_over (deadline timeout start) t.now ≡ true = ground arith in
      let c0 = waiting_on r w.ctx in
      let h = waited r w.ctx q i.stored in
      let e =
        wait-AllIdle A fuel (deadline timeout start) r idle (t ∷ rest) (started r w) (synced q) h
          i.status_msg s
        ∙ wait-over A fuel (deadline timeout start) r t rest (started r w) (synced q) h i.status_msg
            i.blocked refl o in
      (
        ended r w (settled r 7 c0),
        complete_request-ended A fuel timeout start r (idle ++ t ∷ rest) w q _ (settled r 7 c0) 7 i
            e (request-settled r 7 c0 _ h) refl refl,
        ended-Restored r w (settled r 7 c0) (remove_first_self r w.ctx.requests),
      )
