-- ===== src/Libubus/Request/Due.antt =====
-- ubus/libubus-req.c: libubus calls the `complete_cb` of a request once for each time that it is set.
pub mod Messages
pub mod Pending
use libubus_jni.Prelude.{
  ℕ, zero, suc, ◌+◌, ◌≡◌, ◌≢◌, refl, sym, ap, ◌∙◌, arith, Bool, true, false, List, [], ◌∷◌, Option,
  none, some, if◌then◌else◌, ◌>>=◌, ◌==◌, Bool-cases, Option-cases, inl, inr, Ensures, fault,
  ensured, >>=-Ensures, Ensures-any, Ensures-mono, if-Ensures, ◌||◌,
}
use mathlib.Core.Option
use libubus_jni.Libubox.Tree.{find, update, id_ord}
use libubus_jni.Libubox.Tree.Find.{find-update_self, find-update_ne}
use libubus_jni.Libubus.Request.{
  Incoming, Request, Complete, Call, Context, App, raw_data_call, data_call, complete_call,
  notify_status_call, notify_complete_call, fd_call, loop_end, close_call, request, write, call,
  req_complete_cb, set_req_status, status_or, process_req_status, req_data_cb, process_pending,
  process_req_data, abort_request, is_listed,
}
use libubus_jni.Ubusd.State.{remove_first}
use libubus_jni.Libubus.Request.Answer.{
  find_request, add_peers, peers_of, notify_done, process_notify_status, hand_fd, process_req_msg,
}

-- The application's functions as they appear to libubus: they leave its context alone.
abbrev pub apart : App
apart x c = c

-- Calls of the function of a request in the log.
abbrev pub completed : ℕ → List Call → ℕ
completed u [] = 0
completed u (complete_call r s ∷ xs) = (if r == u then 1 else 0) + completed u xs
completed u (_ ∷ xs) = completed u xs

-- One where the function is set.
abbrev pub armed : Option Request → ℕ
armed none = 0
armed (some q) = elim q.complete_cb as (λ _. ℕ) [ Complete.application ↦ 1 | _ ↦ 0 ]

-- The calls made and to be made.
abbrev pub due : ℕ → Context → ℕ
due u c = armed (find u c.memory) + completed u c.log

-- A write that leaves `complete_cb` alone.
armed-update :
    (u r : ℕ) (f : Request → Request) (t : List (ℕ × Request))
    → ((q : Request) → (f q).complete_cb ≡ q.complete_cb)
    → armed (find u (update r f t)) ≡ armed (find u t)
armed-update u r f t same = elim (Bool-cases (u == r)) [
  | inl e ↦
      let eq : u ≡ r = ground arith in
      rw eq (ap armed (find-update_self r f t) ∙ armed-map f same (find r t))
  | inr n ↦ ap armed (find-update_ne r u f t (ground arith))
]
  where
    armed-map :
        (g : Request → Request)
        → ((q : Request) → (g q).complete_cb ≡ q.complete_cb)
        → (o : Option Request) → armed (Option.map g o) ≡ armed o
    armed-map g h none = refl
    armed-map g h (some q) =
        ap (λ (k : Complete). elim k as (λ _. ℕ) [ Complete.application ↦ 1 | _ ↦ 0 ]) (h q)

abbrev pub is_there : Option Request → Bool
is_there none = false
is_there (some q) = true

pub there-update :
    (u r : ℕ) (f : Request → Request) (t : List (ℕ × Request))
    → is_there (find u (update r f t)) ≡ is_there (find u t)
there-update u r f t = elim (Bool-cases (u == r)) [
  | inl e ↦
      let eq : u ≡ r = ground arith in
      rw eq (ap is_there (find-update_self r f t) ∙ there-map (find r t))
  | inr n ↦ ap is_there (find-update_ne r u f t (ground arith))
]
  where
    there-map : (o : Option Request) → is_there (Option.map f o) ≡ is_there o
    there-map none = refl
    there-map (some q) = refl

-- The calls of the function of `u` made and to be made are so many, and `u` is in memory or not.
pub record Owes (u n : ℕ) (here : Bool) (c : Context) : Type 0 where
  pub total : due u c ≡ n
  pub there : is_there (find u c.memory) ≡ here

module _ (u n : ℕ) (here : Bool) where
  pub write-Owes :
      (r : ℕ) (f : Request → Request) (c : Context)
      → ((q : Request) → (f q).complete_cb ≡ q.complete_cb)
      → Owes u n here c
      → Owes u n here (write r f c)
  unfolding write
  write-Owes r f c same o = record {
    total = ap (λ (k : ℕ). k + completed u c.log) (armed-update u r f c.memory same) ∙ o.total;
    there = there-update u r f c.memory ∙ o.there;
  }

  abbrev uncalled : Request → Request
  uncalled q = record q { complete_cb = Complete.absent }

  disarm :
      (r : ℕ) (t : List (ℕ × Request))
      → armed (find u (update r uncalled t)) + (if r == u then armed (find r t) else 0)
        ≡ armed (find u t)
  disarm r t = elim (Bool-cases (r == u)) [
    | inl e ↦
        let eq : r ≡ u = ground arith in
        rw (e, eq, find-update_self u uncalled t) (armed_none (find u t))
    | inr n ↦ rw n (
        ap (λ (o : Option Request). armed o + 0) (find-update_ne r u uncalled t (ground arith))
        ∙ omega arith)
  ]
    where
      armed_none : (o : Option Request) → armed (Option.map uncalled o) + armed o ≡ armed o
      armed_none none = omega arith
      armed_none (some q) = omega arith

  disarm_armed :
      (r : ℕ) (t : List (ℕ × Request))
      → armed (find r t) ≡ 1
      → armed (find u (update r uncalled t)) + (if r == u then 1 else 0) ≡ armed (find u t)
  disarm_armed r t a =
      ap (λ (k : ℕ). armed (find u (update r uncalled t)) + (if r == u then k else 0)) (sym a)
      ∙ disarm r t

  disarm_other :
      (r : ℕ) (t : List (ℕ × Request))
      → armed (find r t) ≡ 0
      → armed (find u (update r uncalled t)) ≡ armed (find u t)
  disarm_other r t a = let d = disarm r t in ground arith

  -- By what `complete_cb` is.
  complete_as :
      (r : ℕ) (c : Context) (q : Request) (k : Complete)
      → request r c ≡ some q
      → q.complete_cb ≡ k
      → Owes u n here c
      → Ensures (Owes u n here) (req_complete_cb apart r c)
  unfolding request req_complete_cb write call
  complete_as r c q Complete.absent e k o = rw (e, req_complete_cb) (rw k (ensured o))
  complete_as r c q Complete.application e k o =
      let a : armed (find r c.memory) ≡ 1 = rw (e, k) refl in
      let d = disarm_armed r c.memory a in
      rw (e, req_complete_cb)
        (rw k (
          ensured (record {
            total = omega (arith, d, o.total);
            there = there-update u r uncalled c.memory ∙ o.there;
          })))
  complete_as r c q Complete.of_notify e k o =
      let a : armed (find r c.memory) ≡ 0 = rw (e, k) refl in
      let d = ap (λ (x : ℕ). x + completed u c.log) (disarm_other r c.memory a) ∙ o.total in
      let there = there-update u r uncalled c.memory ∙ o.there in
      rw (e, req_complete_cb)
        (rw k (elim (Bool-cases q.notify_complete_cb) [
          | inl t ↦ rw t (ensured (record { total = d; there = there }))
          | inr f ↦ rw f (ensured (record { total = d; there = there }))
        ]))
  complete_as r c q Complete.synchronous e k o =
      let a : armed (find r c.memory) ≡ 0 = rw (e, k) refl in
      let s =
        armed-update u r (λ x. record x { status_msg = true; status_code = q.status_code })
          (update r uncalled c.memory) (λ x. refl) in
      let d = ap (λ (x : ℕ). x + completed u c.log) (s ∙ disarm_other r c.memory a) ∙ o.total in
      let there =
        there-update u r (λ x. record x { status_msg = true; status_code = q.status_code })
          (update r uncalled c.memory)
        ∙ there-update u r uncalled c.memory
        ∙ o.there in
      rw (e, req_complete_cb) (rw k (ensured (record { total = d; there = there })))

  pub req_complete_cb-Owes :
      (r : ℕ) (c : Context) → Owes u n here c → Ensures (Owes u n here) (req_complete_cb apart r c)
  unfolding req_complete_cb
  req_complete_cb-Owes r c o = elim (Option-cases (request r c)) [
    | inl e ↦ rw (e, req_complete_cb) fault
    | inr (q, e) ↦ complete_as r c q q.complete_cb e refl o
  ]

  pub set_req_status-Owes :
      (r ret : ℕ) (c : Context)
      → Owes u n here c
      → Ensures (Owes u n here) (set_req_status apart r ret c)
  unfolding set_req_status
  set_req_status-Owes r ret c o = >>=-Ensures (Ensures-any (request r c)) λ q _.
      let w =
        write-Owes r (λ x. record x { status_msg = true; status_code = ret })
          (record c { requests = remove_first r c.requests }) (λ x. refl)
          (record { total = o.total; there = o.there }) in
      if-Ensures q.blocked (ensured w) (req_complete_cb-Owes r _ w)

  pub process_req_status-Owes :
      (r : ℕ) (m : Incoming) (c : Context)
      → Owes u n here c
      → Ensures (Owes u n here) (process_req_status apart r m c)
  unfolding process_req_status
  process_req_status-Owes r m c o =
      set_req_status-Owes r (status_or 2 m) _
        (write-Owes r (λ x. record x { peer = m.peer }) c (λ x. refl) o)

  pub call-Owes :
      (b : Bool) (x : Call) (c : Context)
      → completed u (x ∷ c.log) ≡ completed u c.log
      → Owes u n here c
      → Owes u n here (if b then call apart x c else c)
  unfolding call
  call-Owes true x c e o = record { total = omega (arith, e, o.total); there = o.there }
  call-Owes false x c e o = o
