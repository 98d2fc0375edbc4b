-- ===== src/Libubus/Request/Due/Messages.antt =====
-- ubus/libubus-req.c: no message, and no end of a request, makes libubus call a `complete_cb` more or
-- less often than it was set.
use libubus_jni.Prelude.{
  ℕ, zero, suc, refl, arith, Bool, true, false, Option, none, some, if◌then◌else◌, ◌>>=◌, Ensures,
  ensured, >>=-Ensures, Ensures-any, if-Ensures, set, ◌||◌,
}
use libubus_jni.Libubox.Tree.{id_ord}
use libubus_jni.Libubus.Request.{
  Incoming, Context, notify_status_call, request, write, call, status_or, process_req_status,
  process_req_data, abort_request, is_listed,
}
use libubus_jni.Libubus.Request.Answer.{
  any_bit, find_request, add_peers, peers_of, notify_done, process_notify_status, hand_fd,
  process_req_msg,
}
use libubus_jni.Libubus.Request.Due.{
  apart, Owes, write-Owes, set_req_status-Owes, process_req_status-Owes, call-Owes,
}
use libubus_jni.Libubus.Request.Due.Pending.{process_pending-Owes, process_req_data-Owes}

module _ (u n : ℕ) (here : Bool) where
  notify_done-Owes :
      (r : ℕ) (c : Context) → Owes u n here c → Ensures (Owes u n here) (notify_done apart r c)
  unfolding notify_done
  notify_done-Owes r c o =
      >>=-Ensures (Ensures-any (request r c))
        λ q _. if-Ensures (any_bit q.bits) (ensured o) (set_req_status-Owes u n here r 0 c o)

  process_notify_status-Owes :
      (r k : ℕ) (m : Incoming) (c : Context)
      → Owes u n here c
      → Ensures (Owes u n here) (process_notify_status apart r k m c)
  unfolding process_notify_status
  process_notify_status-Owes r zero m c o =
      let o1 =
        write-Owes u n here r (λ x. record x { bits = set x.bits 0 false }) c (λ x. refl) o in
      >>=-Ensures
        (Ensures-any (request r (write r (λ x. record x { bits = set x.bits 0 false }) c)))
        λ q _.
          let (bits, ids) = add_peers 1 (peers_of m) q.bits q.ids in
          notify_done-Owes r _
            (write-Owes u n here r (λ x. record x { bits = bits; ids = ids }) _ (λ x. refl) o1)
  process_notify_status-Owes r (suc k) m c o =
      let o1 =
        write-Owes u n here r (λ x. record x { bits = set x.bits (suc k) false }) c (λ x. refl) o in
      >>=-Ensures
        (Ensures-any (request r (write r (λ x. record x { bits = set x.bits (suc k) false }) c)))
        λ q _.
          notify_done-Owes r _
            (call-Owes u n here q.status_cb (notify_status_call (suc k) (status_or 0 m)) _ refl o1)

  hand_fd-Owes :
      (r : ℕ) (fd : Option ℕ) (c : Context)
      → Owes u n here c
      → Ensures (Owes u n here) (hand_fd apart r fd c)
  unfolding hand_fd call
  hand_fd-Owes r none c o = ensured o
  hand_fd-Owes r (some fd) c o =
      >>=-Ensures (Ensures-any (request r c)) λ q _. ensured (ground (arith, o.total, o.there))

  status_for :
      (r : ℕ) (id : Option ℕ) (m : Incoming) (c : Context)
      → Owes u n here c
      → Ensures (Owes u n here) (elim id as (λ _. Option Context) [
        | some k ↦ process_notify_status apart r k m c
        | none ↦ process_req_status apart r m c
      ])
  status_for r (some k) m c o = process_notify_status-Owes r k m c o
  status_for r none m c o = process_req_status-Owes u n here r m c o

  answer_of :
      (found : Option (ℕ × Option ℕ)) (fuel : ℕ) (m : Incoming) (fd : Option ℕ) (c : Context)
      → Owes u n here c
      → Ensures (Owes u n here) (elim found as (λ _. Option Context) [
        | none ↦ some c
        | some (r, id) ↦
            if m.is_status
            then (hand_fd apart r fd c >>= λ c1. elim id as (λ _. Option Context) [
              | some k ↦ process_notify_status apart r k m c1
              | none ↦ process_req_status apart r m c1
            ])
            else (request r c >>= λ q.
                if q.data_cb || q.raw_data_cb then process_req_data apart fuel r m c else some c)
      ])
  answer_of none fuel m fd c o = ensured o
  answer_of (some (r, id)) fuel m fd c o =
      if-Ensures m.is_status (>>=-Ensures (hand_fd-Owes r fd c o) λ c1 o1. status_for r id m c1 o1)
        (>>=-Ensures (Ensures-any (request r c)) λ q _.
          if-Ensures (q.data_cb || q.raw_data_cb) (process_req_data-Owes u n here fuel r m c o)
            (ensured o))

  pub process_req_msg-Owes :
      (fuel : ℕ) (m : Incoming) (fd : Option ℕ) (c : Context)
      → Owes u n here c
      → Ensures (Owes u n here) (process_req_msg apart fuel m fd c)
  unfolding process_req_msg
  process_req_msg-Owes fuel m fd c o =
      answer_of (find_request c.memory c.requests m.seq m.peer) fuel m fd c o

  pub abort_request-Owes :
      (fuel r : ℕ) (c : Context)
      → Owes u n here c
      → Ensures (Owes u n here) (abort_request apart fuel r c)
  unfolding abort_request
  abort_request-Owes fuel r c o =
      let o1 = write-Owes u n here r (λ x. record x { cancelled = true }) c (λ x. refl) o in
      if-Ensures (is_listed r c.requests)
        (>>=-Ensures (process_pending-Owes u n here fuel r _ o1)
          λ c1 o2. ensured (record { total = o2.total; there = o2.there }))
        (ensured o)
