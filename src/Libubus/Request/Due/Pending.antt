-- ===== src/Libubus/Request/Due/Pending.antt =====
-- Messages that wait for a request leave what libubus owes to it (ubus/libubus-req.c).
use libubus_jni.Prelude.{
  ℕ, zero, suc, refl, Bool, true, false, List, [], ◌∷◌, Option, some, if◌then◌else◌, ◌>>=◌, Ensures,
  fault, ensured, >>=-Ensures, Ensures-any, if-Ensures,
}
use libubus_jni.Libubox.Tree.{id_ord}
use libubus_jni.Libubus.Request.{
  Incoming, Context, raw_data_call, data_call, request, write, call, req_data_cb, process_pending,
  process_req_data,
}
use libubus_jni.Libubus.Request.Due.{apart, Owes, write-Owes, call-Owes, req_complete_cb-Owes}

module _ (u n : ℕ) (here : Bool) where
  req_data_cb-Owes :
      (r : ℕ) (m : Incoming) (c : Context)
      → Owes u n here c
      → Ensures (Owes u n here) (req_data_cb apart r m c)
  unfolding req_data_cb
  req_data_cb-Owes r m c o = >>=-Ensures (Ensures-any (request r c)) λ q _.
      let c1 = if q.raw_data_cb then call apart (raw_data_call r m) c else c in
      let o1 = call-Owes u n here q.raw_data_cb (raw_data_call r m) c refl o in
      >>=-Ensures (Ensures-any (request r c1))
        λ q1 _. ensured (call-Owes u n here q1.data_cb (data_call r m) c1 refl o1)

  pending_round :
      (fuel r : ℕ) (c : Context) (ms : List Incoming) (b : Bool)
      → ((c1 : Context)
          → Owes u n here c1
          → Ensures (Owes u n here) (process_pending apart fuel r c1))
      → Owes u n here c
      → Ensures (Owes u n here) (elim ms as (λ _. Option Context) [
        | [] ↦ some c
        | ◌∷◌ m ms1 ↦
            (if b
              then some (write r (λ x. record x { pending = ms1 }) c)
              else req_data_cb apart r m (write r (λ x. record x { pending = ms1 }) c))
            >>= process_pending apart fuel r
      ])
  pending_round fuel r c [] b later o = ensured o
  pending_round fuel r c (m ∷ ms) b later o =
      let w = write-Owes u n here r (λ x. record x { pending = ms }) c (λ x. refl) o in
      >>=-Ensures (if-Ensures b (ensured w) (req_data_cb-Owes r m _ w)) later

  pub process_pending-Owes :
      (fuel r : ℕ) (c : Context)
      → Owes u n here c
      → Ensures (Owes u n here) (process_pending apart fuel r c)
  unfolding process_pending
  process_pending-Owes zero r c o = fault
  process_pending-Owes (suc fuel) r c o =
      >>=-Ensures (Ensures-any (request r c))
        λ q _. pending_round fuel r c q.pending q.cancelled (process_pending-Owes fuel r) o

  pub process_req_data-Owes :
      (fuel r : ℕ) (m : Incoming) (c : Context)
      → Owes u n here c
      → Ensures (Owes u n here) (process_req_data apart fuel r m c)
  unfolding process_req_data
  process_req_data-Owes fuel r m c o = >>=-Ensures (Ensures-any (request r c)) λ q _.
      if-Ensures q.blocked
        (ensured
          (write-Owes u n here r (λ x. record x { pending = m ∷ x.pending }) c (λ x. refl) o))
        (>>=-Ensures
          (req_data_cb-Owes r m _
            (write-Owes u n here r (λ x. record x { blocked = true }) c (λ x. refl) o))
          λ c1 o1. >>=-Ensures (process_pending-Owes fuel r c1 o1) λ c2 o2.
            let o3 = write-Owes u n here r (λ x. record x { blocked = false }) c2 (λ x. refl) o2 in
            >>=-Ensures (Ensures-any (request r (write r (λ x. record x { blocked = false }) c2)))
              λ q3 _. if-Ensures q3.status_msg (req_complete_cb-Owes u n here r _ o3) (ensured o3))
