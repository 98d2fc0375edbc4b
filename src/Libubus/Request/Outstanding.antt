-- ===== src/Libubus/Request/Outstanding.antt =====
-- The subscribers whose answer to a notification is still out (ubus/libubus-req.c), and when the
-- notification is complete.
use libubus_jni.Prelude.{
  ℕ, zero, suc, ◌≡◌, refl, ap, ◌∙◌, arith, Bool, true, false, List, [], ◌∷◌, some, if◌then◌else◌,
  not, set, Bool-cases, inl, inr,
}
use mathlib.Core.Option
use libubus_jni.Libubox.Tree.{update, id_ord}
use libubus_jni.Libubox.Tree.Find.{find-update_self}
use libubus_jni.Ubusd.State.{remove_first}
use libubus_jni.Ubusd.Subscription.{is_empty}
use libubus_jni.Libubus.Request.{
  Incoming, Request, Call, notify_status_call, Context, App, request, write, call, set_req_status,
  status_or,
}
use libubus_jni.Libubus.Request.Answer.{any_bit, find_notify_id, process_notify_status, notify_done}

-- The ids of the array whose bits are set.
abbrev pub outstanding : List Bool → List ℕ → List ℕ
outstanding [] ids = []
outstanding (b ∷ bs) [] = []
outstanding (true ∷ bs) (i ∷ ids) = i ∷ outstanding bs ids
outstanding (false ∷ bs) (i ∷ ids) = outstanding bs ids

-- No bit is set beyond the array.
abbrev pub Within : List Bool → List ℕ → Type 0
Within [] ids = Unit
Within (b ∷ bs) [] = any_bit (b ∷ bs) ≡ false
Within (b ∷ bs) (i ∷ ids) = Within bs ids

pub any_bit-outstanding :
    (bs : List Bool) (ids : List ℕ)
    → Within bs ids
    → any_bit bs ≡ not (is_empty (outstanding bs ids))
unfolding any_bit
any_bit-outstanding [] ids w = refl
any_bit-outstanding (b ∷ bs) [] w = w
any_bit-outstanding (true ∷ bs) (i ∷ ids) w = refl
any_bit-outstanding (false ∷ bs) (i ∷ ids) w = any_bit-outstanding bs ids w

any_bit-set-false : (bs : List Bool) (k : ℕ) → any_bit bs ≡ false → any_bit (set bs k false) ≡ false
unfolding any_bit
any_bit-set-false [] k h = h
any_bit-set-false (b ∷ bs) zero h = ground arith
any_bit-set-false (b ∷ bs) (suc k) h = ground (arith, any_bit-set-false bs k)

Within-set-false :
    (bs : List Bool) (ids : List ℕ) (k : ℕ) → Within bs ids → Within (set bs k false) ids
unfolding any_bit
Within-set-false [] ids k w = tt
Within-set-false (b ∷ bs) [] zero w = any_bit-set-false (b ∷ bs) zero w
Within-set-false (b ∷ bs) [] (suc k) w = any_bit-set-false (b ∷ bs) (suc k) w
Within-set-false (b ∷ bs) (i ∷ ids) zero w = w
Within-set-false (b ∷ bs) (i ∷ ids) (suc k) w = Within-set-false bs ids k w

-- The bit that is cleared for an answer is that of the first id like its sender's.
find_notify_id-remove :
    (bs : List Bool) (ids : List ℕ) (objid k : ℕ)
    → find_notify_id bs ids objid ≡ some k
    → outstanding (set bs k false) ids ≡ remove_first objid (outstanding bs ids)
unfolding find_notify_id remove_first
find_notify_id-remove [] ids objid k h = ground arith
find_notify_id-remove (b ∷ bs) [] objid k h = ground arith
find_notify_id-remove (true ∷ bs) (i ∷ ids) objid zero h = ground arith
find_notify_id-remove (true ∷ bs) (i ∷ ids) objid (suc k) h =
    ground (arith, find_notify_id-remove bs ids objid k)
find_notify_id-remove (false ∷ bs) (i ∷ ids) objid zero h = ground arith
find_notify_id-remove (false ∷ bs) (i ∷ ids) objid (suc k) h =
    ground (arith, find_notify_id-remove bs ids objid k)

-- The application's functions leave the context as it is.
abbrev pub Quiet : App → Type 0
Quiet A = (x : Call) (c : Context) → A x c ≡ c

pub notify_done_lem :
    (A : App) (r : ℕ) (c : Context) (q : Request) (b : Bool)
    → request r c ≡ some q
    → any_bit q.bits ≡ not b
    → notify_done A r c ≡ (if b then set_req_status A r 0 c else some c)
unfolding notify_done
notify_done_lem A r c q true h e = rw (h, notify_done) (rw e refl)
notify_done_lem A r c q false h e = rw (h, notify_done) (rw e refl)

abbrev pub clear : ℕ → Request → Request
clear k q = record q { bits = set q.bits k false }

-- The context after a subscriber's answer: its bit cleared, and the application told.
abbrev pub answered : ℕ → ℕ → Incoming → Request → Context → Context
answered r k m q c =
    let c1 = record c { memory = update r (clear k) c.memory } in
    if q.status_cb then record c1 { log = notify_status_call k (status_or 0 m) ∷ c1.log } else c1

module _ (A : App) (quiet : Quiet A) (r k : ℕ) (m : Incoming) (c : Context) (q : Request) where
  -- A notification with no bit set beyond its array of ids gets the status of a subscriber that it
  -- waits for, and the functions of the application leave the context as it is: the first id like
  -- the sender's is taken off the ids that it waits for, `status_cb`, if set, is told the index
  -- and the status, and the request completes with status 0 exactly when no id is left.
  pub notify_answer :
      request r c ≡ some q
      → find_notify_id q.bits q.ids m.peer ≡ some (suc k)
      → Within q.bits q.ids
      → process_notify_status A r (suc k) m c ≡ (
          if is_empty (remove_first m.peer (outstanding q.bits q.ids))
          then set_req_status A r 0 (answered r (suc k) m q c)
          else some (answered r (suc k) m q c))
  unfolding process_notify_status request write call
  notify_answer h f w =
      let g = find-update_self r (clear (suc k)) c.memory ∙ ap (Option.map (clear (suc k))) h in
      let any =
        any_bit-outstanding (set q.bits (suc k) false) q.ids
          (Within-set-false q.bits q.ids (suc k) w)
        ∙ ap (λ o. not (is_empty o)) (find_notify_id-remove q.bits q.ids m.peer (suc k) f) in
      elim (Bool-cases q.status_cb) [
        | inl t ↦ rw (g, t, process_notify_status) (rw quiet (notify_done_lem A r _ _ _ g any))
        | inr n ↦ rw (g, n, process_notify_status) (notify_done_lem A r _ _ _ g any)
      ]
