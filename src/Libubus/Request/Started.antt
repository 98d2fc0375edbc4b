-- ===== src/Libubus/Request/Started.antt =====
-- A notification once ubusd has answered it with the list of subscribers (ubus/libubus-req.c).
use mathlib.Core.List.{append_assoc, append-nil}
use libubus_jni.Prelude.{
  ℕ, zero, suc, ◌+◌, ◌<◌, ◌≡◌, refl, sym, ap, ◌∙◌, arith, Bool, true, false, List, [], ◌∷◌, ◌++◌,
  Option, none, some, ◌==◌, set, take, drop, length, length-set, replicate, not, if◌then◌else◌,
}
use mathlib.Core.Option
use libubus_jni.Libubox.Tree.{update, id_ord}
use libubus_jni.Libubox.Tree.Find.{find-update_self}
use libubus_jni.Ubusd.Subscription.{is_empty}
use libubus_jni.Libubus.Request.{Incoming, Request, App, Context, request, write, set_req_status}
use libubus_jni.Libubus.Request.Answer.{
  any_bit, add_peers, max_notify_peers, peers_of, process_notify_status,
}
use libubus_jni.Libubus.Request.Outstanding.{
  outstanding, Within, any_bit-outstanding, notify_done_lem, clear,
}

-- The elements of the attribute that are 32-bit numbers.
abbrev pub numbers : List (Option ℕ) → List ℕ
numbers [] = []
numbers (none ∷ ps) = numbers ps
numbers (some p ∷ ps) = p ∷ numbers ps

outstanding-clear : (bs : List Bool) (ids : List ℕ) → any_bit bs ≡ false → outstanding bs ids ≡ []
unfolding any_bit
outstanding-clear [] ids h = refl
outstanding-clear (b ∷ bs) [] h = refl
outstanding-clear (true ∷ bs) (i ∷ ids) h = ground arith
outstanding-clear (false ∷ bs) (i ∷ ids) h = outstanding-clear bs ids h

-- A bit set behind all others adds its id at the end.
outstanding-set :
    (bs : List Bool) (ids : List ℕ) (k p : ℕ)
    → any_bit (drop k bs) ≡ false
    → k < length bs
    → k < length ids
    → outstanding (set bs k true) (set ids k p) ≡ outstanding bs ids ++ (p ∷ [])
unfolding any_bit
outstanding-set [] ids k p h b i = absurd (omega arith)
outstanding-set (b ∷ bs) [] k p h l i = absurd (omega arith)
outstanding-set (true ∷ bs) (x ∷ ids) zero p h l i = ground arith
outstanding-set (false ∷ bs) (x ∷ ids) zero p h l i = rw (outstanding-clear bs ids h) refl
outstanding-set (true ∷ bs) (x ∷ ids) (suc k) p h l i =
    ap (◌∷◌ x) (outstanding-set bs ids k p h (omega arith) (omega arith))
outstanding-set (false ∷ bs) (x ∷ ids) (suc k) p h l i =
    outstanding-set bs ids k p h (omega arith) (omega arith)

clear-set :
    (bs : List Bool) (k : ℕ)
    → any_bit (drop k bs) ≡ false
    → any_bit (drop (suc k) (set bs k true)) ≡ false
unfolding any_bit
clear-set [] k h = refl
clear-set (b ∷ bs) zero h = ground arith
clear-set (b ∷ bs) (suc k) h = clear-set bs k h

any_bit-tail : (b : Bool) (bs : List Bool) → any_bit (b ∷ bs) ≡ false → any_bit bs ≡ false
unfolding any_bit
any_bit-tail b bs h = ground arith

-- The loop from the index `idx` on, where the array has room for `suc n` more.
add_peers-outstanding :
    (idx n : ℕ) (ps : List (Option ℕ)) (bs : List Bool) (ids : List ℕ)
    → any_bit (drop idx bs) ≡ false
    → length bs ≡ 32
    → length ids ≡ max_notify_peers + 1
    → idx + suc n ≡ max_notify_peers + 1
    → outstanding (add_peers idx ps bs ids).0 (add_peers idx ps bs ids).1
      ≡ outstanding bs ids ++ take (suc n) (numbers ps)
unfolding add_peers
add_peers-outstanding idx n [] bs ids h lb li e = sym (append-nil (outstanding bs ids))
add_peers-outstanding idx n (none ∷ ps) bs ids h lb li e =
    add_peers-outstanding idx n ps bs ids h lb li e
add_peers-outstanding idx zero (some p ∷ ps) bs ids h lb li e =
    let last : suc idx == max_notify_peers + 1 ≡ true = ground arith in
    rw last (outstanding-set bs ids idx p h (omega arith) (omega arith))
add_peers-outstanding idx (suc n) (some p ∷ ps) bs ids h lb li e =
    let more : suc idx == max_notify_peers + 1 ≡ false = ground arith in
    rw more (
      add_peers-outstanding (suc idx) n ps (set bs idx true) (set ids idx p) (clear-set bs idx h)
        (length-set bs idx true ∙ lb) (length-set ids idx p ∙ li) (omega arith)
      ∙ ap (λ o. o ++ take (suc n) (numbers ps))
          (outstanding-set bs ids idx p h (omega arith) (omega arith))
      ∙ append_assoc (outstanding bs ids) (p ∷ []) (take (suc n) (numbers ps)))

pub add_peers_lem :
    (ps : List (Option ℕ)) (bs : List Bool) (ids : List ℕ)
    → any_bit bs ≡ false
    → length bs ≡ 32
    → length ids ≡ max_notify_peers + 1
    → outstanding (add_peers 1 ps bs ids).0 (add_peers 1 ps bs ids).1
      ≡ take max_notify_peers (numbers ps)
add_peers_lem ps [] ids h lb li = absurd (omega arith)
add_peers_lem ps (b ∷ bs) ids h lb li =
    add_peers-outstanding 1 15 ps (b ∷ bs) ids (any_bit-tail b bs h) lb li refl
    ∙ ap (λ o. o ++ take 16 (numbers ps)) (outstanding-clear (b ∷ bs) ids h)

Within-clear : (bs : List Bool) (ids : List ℕ) → any_bit bs ≡ false → Within bs ids
unfolding any_bit
Within-clear [] ids h = tt
Within-clear (b ∷ bs) [] h = h
Within-clear (b ∷ bs) (i ∷ ids) h = Within-clear bs ids (any_bit-tail b bs h)

Within-set-true :
    (bs : List Bool) (ids : List ℕ) (k p : ℕ)
    → k < length ids
    → Within bs ids
    → Within (set bs k true) (set ids k p)
Within-set-true [] ids k p l w = tt
Within-set-true (b ∷ bs) [] k p l w = absurd (omega arith)
Within-set-true (b ∷ bs) (i ∷ ids) zero p l w = w
Within-set-true (b ∷ bs) (i ∷ ids) (suc k) p l w = Within-set-true bs ids k p (omega arith) w

Within-add_peers :
    (idx n : ℕ) (ps : List (Option ℕ)) (bs : List Bool) (ids : List ℕ)
    → length ids ≡ max_notify_peers + 1
    → idx + suc n ≡ max_notify_peers + 1
    → Within bs ids
    → Within (add_peers idx ps bs ids).0 (add_peers idx ps bs ids).1
unfolding add_peers
Within-add_peers idx n [] bs ids li e w = w
Within-add_peers idx n (none ∷ ps) bs ids li e w = Within-add_peers idx n ps bs ids li e w
Within-add_peers idx zero (some p ∷ ps) bs ids li e w =
    let last : suc idx == max_notify_peers + 1 ≡ true = ground arith in
    rw last (Within-set-true bs ids idx p (omega arith) w)
Within-add_peers idx (suc n) (some p ∷ ps) bs ids li e w =
    let more : suc idx == max_notify_peers + 1 ≡ false = ground arith in
    rw more (
      Within-add_peers (suc idx) n ps (set bs idx true) (set ids idx p) (length-set ids idx p ∙ li)
        (omega arith) (Within-set-true bs ids idx p (omega arith) w))

-- `pending` of a notification that waits for ubusd alone.
abbrev pub first_bit : List Bool
first_bit = true ∷ replicate 31 false

-- A notification that waits for ubusd alone (bit 0 set, an array of 17 ids) gets ubusd's status
-- with the list of subscribers: then it waits for exactly the first 16 of the ids in that list
-- that are 32-bit numbers, in their order, and it is complete at once, with status 0, exactly when
-- there are none.
pub notify_started :
    (A : App) (r : ℕ) (m : Incoming) (c : Context) (q : Request)
    → request r c ≡ some q
    → q.bits ≡ first_bit
    → length q.ids ≡ max_notify_peers + 1
    → (c1 : Context) × (q1 : Request) × (request r c1 ≡ some q1)
      × (outstanding q1.bits q1.ids ≡ take max_notify_peers (numbers (peers_of m)))
      × (process_notify_status A r 0 m c ≡ (
          if is_empty (take max_notify_peers (numbers (peers_of m)))
          then set_req_status A r 0 c1
          else some c1))
unfolding process_notify_status request write any_bit
notify_started A r m c q h e li =
    let bits = set q.bits 0 false in
    let no_bit : any_bit bits ≡ false = rw e refl in
    let out = add_peers_lem (peers_of m) bits q.ids no_bit (rw e refl) li in
    let w =
      Within-add_peers 1 15 (peers_of m) bits q.ids li refl (Within-clear bits q.ids no_bit) in
    let new = add_peers 1 (peers_of m) bits q.ids in
    let any = any_bit-outstanding new.0 new.1 w ∙ ap (λ o. not (is_empty o)) out in
    let fill : Request → Request = λ x. record x { bits = new.0; ids = new.1 } in
    let g = find-update_self r (clear 0) c.memory ∙ ap (Option.map (clear 0)) h in
    let g1 = find-update_self r fill (update r (clear 0) c.memory) ∙ ap (Option.map fill) g in
    (
      record c { memory = update r fill (update r (clear 0) c.memory) },
      fill (clear 0 q),
      g1,
      out,
      rw (g, process_notify_status) (notify_done_lem A r _ _ _ g1 any),
    )
