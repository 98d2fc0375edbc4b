-- ===== src/Libubus/Request/Waiting/Rounds.antt =====
-- The rounds of the loop of `ubus_complete_request` (ubus/libubus-req.c).
use mathlib.Core.Option
use libubus_jni.Prelude.{
  ℕ, ◌+◌, ◌≡◌, refl, ap, ◌∙◌, arith, true, false, List, [], ◌∷◌, ◌++◌, Option, none, some,
  if◌then◌else◌, ◌>>=◌, ◌==◌,
}
use libubus_jni.Libubox.Tree.{find, update, id_ord}
use libubus_jni.Libubox.Tree.Find.{find-update_self}
use libubus_jni.Ubusd.State.{remove_first}
use libubus_jni.Libubus.Request.{
  Incoming, Request, Complete, Context, App, request, write, set_req_status, req_complete_cb,
  status_or, process_req_status, loop_end,
}
use libubus_jni.Libubus.Request.Answer.{find_request, matches, hand_fd, process_req_msg}
use libubus_jni.Libubus.Request.Waiting.{Round, Waiter, poll_data, is_over, wait}

-- A message that answers no request of the list.
abbrev pub Stray : Context → Incoming × Option ℕ → Type 0
Stray c m = find_request c.memory c.requests m.0.seq m.0.peer ≡ none

abbrev pub AllStray : Context → List (Incoming × Option ℕ) → Type 0
AllStray c [] = Unit
AllStray c (m ∷ ms) = Stray c m × AllStray c ms

-- Rounds before the time is over that bring nothing for a request of the list.
abbrev pub AllIdle : Option ℕ → Context → List Round → Type 0
AllIdle time_end c [] = Unit
AllIdle time_end c (t ∷ ts) =
    (is_over time_end t.now ≡ false) × AllStray c t.messages × AllIdle time_end c ts

-- The request during the wait.
abbrev pub synced : Request → Request
synced q = record q { complete_cb = Complete.synchronous }

abbrev pub deadline : ℕ → ℕ → Option ℕ
deadline timeout start = if timeout == 0 then none else some (start + timeout)

-- The context at the start of the loop.
abbrev pub waiting_on : ℕ → Context → Context
waiting_on r c = record c { memory = update r synced c.memory; requests = r ∷ c.requests }

process_req_msg-Stray :
    (A : App) (fuel : ℕ) (m : Incoming) (fd : Option ℕ) (c : Context)
    → Stray c (m, fd)
    → process_req_msg A fuel m fd c ≡ some c
unfolding process_req_msg
process_req_msg-Stray A fuel m fd c s = rw (s, process_req_msg) refl

poll_data-AllStray :
    (A : App) (fuel : ℕ) (ms : List (Incoming × Option ℕ)) (c : Context)
    → AllStray c ms
    → poll_data A fuel ms c ≡ some c
unfolding poll_data
poll_data-AllStray A fuel [] c s = refl
poll_data-AllStray A fuel ((m, fd) ∷ ms) c s =
    ap (λ d. d >>= poll_data A fuel ms) (process_req_msg-Stray A fuel m fd c s.0)
    ∙ poll_data-AllStray A fuel ms c s.1

-- Rounds that bring nothing for the request leave it waiting.
pub wait-AllIdle :
    (A : App) (fuel : ℕ) (time_end : Option ℕ) (r : ℕ) (ts rest : List Round) (w : Waiter)
    (q : Request)
    → request r w.ctx ≡ some q
    → q.status_msg ≡ false
    → AllIdle time_end w.ctx ts
    → wait A fuel time_end r (ts ++ rest) w ≡ wait A fuel time_end r rest w
unfolding wait
wait-AllIdle A fuel time_end r [] rest w q h n i = refl
wait-AllIdle A fuel time_end r (t ∷ ts) rest w q h n i =
    rw (h, wait)
      (rw (n, i.0, poll_data-AllStray A fuel t.messages w.ctx i.1)
        (wait-AllIdle A fuel time_end r ts rest w q h n i.2))

abbrev pub with_status : ℕ → Request → Request
with_status code q = record q { status_msg = true; status_code = code }

abbrev pub uncalled : Request → Request
uncalled q = record q { complete_cb = Complete.absent }

-- The context after the status of a request that is waited for.
abbrev pub settled : ℕ → ℕ → Context → Context
settled r code c = record c {
  memory = update r (with_status code) (update r uncalled (update r (with_status code) c.memory));
  requests = remove_first r c.requests;
  log = loop_end ∷ c.log;
}

pub find-written :
    (r : ℕ) (f : Request → Request) (t : List (ℕ × Request)) (q : Request)
    → find r t ≡ some q
    → find r (update r f t) ≡ some (f q)
find-written r f t q h = find-update_self r f t ∙ ap (Option.map f) h

set_req_status-settled :
    (A : App) (r code : ℕ) (q : Request) (c : Context)
    → request r c ≡ some q
    → q.blocked ≡ false
    → q.complete_cb ≡ Complete.synchronous
    → set_req_status A r code c ≡ some (settled r code c)
unfolding set_req_status req_complete_cb request write
set_req_status-settled A r code q c h b e =
    rw (h, set_req_status) (rw b (rw (find-written r (with_status code) c.memory q h) (rw e refl)))

-- A request with a status ends the loop.
wait-done :
    (A : App) (fuel : ℕ) (time_end : Option ℕ) (r : ℕ) (ts : List Round) (w : Waiter) (q : Request)
    → request r w.ctx ≡ some q
    → q.status_msg ≡ true
    → wait A fuel time_end r ts w ≡ some (true, w)
unfolding wait
wait-done A fuel time_end r [] w q h n = rw (h, wait) (rw n refl)
wait-done A fuel time_end r (t ∷ ts) w q h n = rw (h, wait) (rw n refl)

-- The request as it is then.
pub request-settled :
    (r code : ℕ) (c : Context) (q : Request)
    → request r c ≡ some q
    → request r (settled r code c) ≡ some (with_status code (uncalled (with_status code q)))
unfolding request
request-settled r code c q h =
    find-written r (with_status code) _ _
      (find-written r uncalled _ _ (find-written r (with_status code) c.memory q h))

pub find_request-first :
    (r : ℕ) (c : Context) (q : Request) (seq peer : ℕ)
    → request r c ≡ some q
    → q.notify ≡ false
    → seq ≡ q.seq
    → peer ≡ q.peer
    → find_request c.memory (r ∷ c.requests) seq peer ≡ some (r, none)
unfolding request find_request matches
find_request-first r c q seq peer h n es ep = ground (arith, h)

abbrev pub from_peer : ℕ → ℕ → Context → Context
from_peer p r c = record c { memory = update r (λ x. record x { peer = p }) c.memory }

process_req_msg-answered :
    (A : App) (fuel r : ℕ) (m : Incoming) (c : Context) (q : Request)
    → request r c ≡ some q
    → q.blocked ≡ false
    → q.complete_cb ≡ Complete.synchronous
    → find_request c.memory c.requests m.seq m.peer ≡ some (r, none)
    → m.is_status ≡ true
    → process_req_msg A fuel m none c ≡ some (settled r (status_or 2 m) (from_peer m.peer r c))
unfolding process_req_msg hand_fd process_req_status write request
process_req_msg-answered A fuel r m c q h b e f s =
    rw (f, process_req_msg)
      (rw s (
        set_req_status-settled A r (status_or 2 m) (record q { peer = m.peer })
          (from_peer m.peer r c) (find-written r (λ x. record x { peer = m.peer }) c.memory q h) b
          e))

-- The last round of the loop: the status comes in, or the time is over.
pub wait-answered :
    (A : App) (fuel : ℕ) (time_end : Option ℕ) (r : ℕ) (t : Round) (ts : List Round) (w : Waiter)
    (q : Request) (m : Incoming)
    → request r w.ctx ≡ some q
    → q.status_msg ≡ false
    → q.blocked ≡ false
    → q.complete_cb ≡ Complete.synchronous
    → find_request w.ctx.memory w.ctx.requests m.seq m.peer ≡ some (r, none)
    → is_over time_end t.now ≡ false
    → t.messages ≡ (m, none) ∷ []
    → m.is_status ≡ true
    → wait A fuel time_end r (t ∷ ts) w
      ≡ some (true, record w { ctx = settled r (status_or 2 m) (from_peer m.peer r w.ctx) })
unfolding wait poll_data request
wait-answered A fuel time_end r t ts w q m h n b e f o ms s =
    let c1 = from_peer m.peer r w.ctx in
    let w1 : Waiter = record w { ctx = settled r (status_or 2 m) c1 } in
    let p = process_req_msg-answered A fuel r m w.ctx q h b e f s in
    let g = find-written r (λ x. record x { peer = m.peer }) w.ctx.memory q h in
    rw (h, wait)
      (rw (n, o, ms)
        (rw p
          (wait-done A fuel time_end r ts w1 _ (request-settled r (status_or 2 m) c1 _ g) refl)))

pub wait-over :
    (A : App) (fuel : ℕ) (time_end : Option ℕ) (r : ℕ) (t : Round) (ts : List Round) (w : Waiter)
    (q : Request)
    → request r w.ctx ≡ some q
    → q.status_msg ≡ false
    → q.blocked ≡ false
    → q.complete_cb ≡ Complete.synchronous
    → is_over time_end t.now ≡ true
    → wait A fuel time_end r (t ∷ ts) w ≡ some (true, record w { ctx = settled r 7 w.ctx })
unfolding wait
wait-over A fuel time_end r t ts w q h n b e o =
    rw (h, wait) (rw (n, o, set_req_status-settled A r 7 q w.ctx h b e) refl)
