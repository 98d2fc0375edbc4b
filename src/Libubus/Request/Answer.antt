-- ===== src/Libubus/Request/Answer.antt =====
-- ubus/libubus-req.c: which request an incoming message answers, and the statuses of a
-- notification's subscribers.
use libubus_jni.Prelude.{
  ℕ, zero, suc, ◌+◌, Bool, true, false, List, [], ◌∷◌, Option, none, some, if◌then◌else◌, ◌>>=◌,
  ◌==◌, not, ◌||◌, ◌&&◌, set,
}
use libubus_jni.Libubox.Tree.{find, id_ord}
use libubus_jni.Libubus.Request.{
  Incoming, Request, notify_status_call, fd_call, close_call, Context, App, request, write, call,
  set_req_status, status_or, process_req_status, process_req_data,
}

-- UBUS_MAX_NOTIFY_PEERS
abbrev pub max_notify_peers : ℕ
max_notify_peers = 16

-- `if (pending)` of a word.
unfoldable pub any_bit : List Bool → Bool
any_bit [] = false
any_bit (b ∷ bs) = b || any_bit bs

-- `ubus_find_notify_id`. The array ends with the word here: the loop of the code stops at the word's
-- last bit set.
unfoldable pub find_notify_id : List Bool → List ℕ → ℕ → Option ℕ
find_notify_id [] ids objid = none
find_notify_id (b ∷ bs) [] objid = none
find_notify_id (b ∷ bs) (i ∷ ids) objid =
    let rest = find_notify_id bs ids objid in
    if b && i == objid then some 0 else elim rest [ none ↦ none | some k ↦ some (suc k) ]

-- Whether a request is the one that a message answers, with the index that goes into `*id`, which
-- stays -1 (`none`) where it is no notification.
unfoldable pub matches : Request → ℕ → ℕ → Option (Option ℕ)
unfolding any_bit find_notify_id
matches q seq peer =
    if not (seq == q.seq)
    then none
    else if q.notify
    then (if any_bit q.bits
        then (find_notify_id q.bits q.ids peer >>= λ k. some (some k))
        else none)
    else if peer == q.peer
    then some none
    else none

-- `ubus_find_request`
unfoldable pub find_request : List (ℕ × Request) → List ℕ → ℕ → ℕ → Option (ℕ × Option ℕ)
unfolding matches
find_request memory [] seq peer = none
find_request memory (r ∷ rs) seq peer =
    let rest = find_request memory rs seq peer in
    elim (find r memory) [
      | none ↦ none
      | some q ↦ elim (matches q seq peer) [ none ↦ rest | some k ↦ some (r, k) ]
    ]

-- The loop over the attribute "subscribers", from the index `idx` on.
unfoldable pub add_peers : ℕ → List (Option ℕ) → List Bool → List ℕ → List Bool × List ℕ
add_peers idx [] bits ids = (bits, ids)
add_peers idx (none ∷ ps) bits ids = add_peers idx ps bits ids
add_peers idx (some p ∷ ps) bits ids =
    let bits1 = set bits idx true in
    let ids1 = set ids idx p in
    let rest = add_peers (suc idx) ps bits1 ids1 in
    if suc idx == max_notify_peers + 1 then (bits1, ids1) else rest

abbrev pub peers_of : Incoming → List (Option ℕ)
peers_of m = elim m.subscribers [ none ↦ [] | some ps ↦ ps ]

-- The end of `ubus_process_notify_status`: complete when no bit is set any more.
unfoldable pub notify_done : App → ℕ → Context → Option Context
unfolding any_bit request set_req_status
notify_done A r c = do
  q ← request r c
  let done = set_req_status A r 0 c
  if any_bit q.bits then some c else done

-- `ubus_process_notify_status`. Index 0 is ubusd's own status, with the list of subscribers; any
-- other is a subscriber's.
unfoldable pub process_notify_status : App → ℕ → ℕ → Incoming → Context → Option Context
unfolding add_peers request write call
process_notify_status A r zero m c = do
  let c1 = write r (λ x. record x { bits = set x.bits 0 false }) c
  q ← request r c1
  let (bits, ids) = add_peers 1 (peers_of m) q.bits q.ids
  notify_done A r (write r (λ x. record x { bits = bits; ids = ids }) c1)
process_notify_status A r (suc k) m c = do
  let c1 = write r (λ x. record x { bits = set x.bits (suc k) false }) c
  q ← request r c1
  let told = call A (notify_status_call (suc k) (status_or 0 m)) c1
  notify_done A r (if q.status_cb then told else c1)

-- What becomes of a descriptor that comes with a status.
unfoldable pub hand_fd : App → ℕ → Option ℕ → Context → Option Context
unfolding request call
hand_fd A r none c = some c
hand_fd A r (some fd) c = do
  q ← request r c
  some (if q.fd_cb then call A (fd_call r fd) c else record c { log = close_call fd ∷ c.log })

-- `ubus_process_req_msg`
unfoldable pub process_req_msg : App → ℕ → Incoming → Option ℕ → Context → Option Context
unfolding request find_request hand_fd process_notify_status process_req_status process_req_data
process_req_msg A fuel m fd c = elim (find_request c.memory c.requests m.seq m.peer) [
  | none ↦ some c
  | some (r, id) ↦
      if m.is_status
      then (hand_fd A r fd c >>= λ c1. elim id [
        | some k ↦ process_notify_status A r k m c1
        | none ↦ process_req_status A r m c1
      ])
      else (request r c >>= λ q.
          if q.data_cb || q.raw_data_cb then process_req_data A fuel r m c else some c)
]
