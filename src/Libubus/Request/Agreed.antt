-- ===== src/Libubus/Request/Agreed.antt =====
-- A notifier waits for subscribers that ubusd has sent its notification (ubus/libubus-req.c,
-- ubus/ubusd_proto.c).
use libubus_jni.Prelude.{
  ℕ, ◌+◌, ◌≡◌, refl, ap, ◌∙◌, List, [], ◌∷◌, Option, none, some, map, take, length, if◌then◌else◌,
}
use libubus_jni.Libubox.Text.{CString}
use libubus_jni.Libubox.Tree.{find, id_ord}
use libubus_jni.Ubusd.Message.{MsgBuf}
use libubus_jni.Ubusd.State.{Daemon, Object, Client, find_object, sent, freed}
use libubus_jni.Ubusd.Subscription.{is_empty}
use libubus_jni.Ubusd.Proto.Reply.{consumed}
use libubus_jni.Ubusd.Proto.Call.{handle_notify}
use libubus_jni.Ubusd.Proto.Call.Notified.{OwnedBy, add_notices, listing, handle_notify-listed}
use libubus_jni.Libubus.Request.{Incoming, Request, App, Context, request, set_req_status}
use libubus_jni.Libubus.Request.Answer.{max_notify_peers, peers_of, process_notify_status}
use libubus_jni.Libubus.Request.Outstanding.{outstanding}
use libubus_jni.Libubus.Request.Started.{numbers, first_bit, notify_started}

numbers-map : (xs : List ℕ) → numbers (map some xs) ≡ xs
numbers-map [] = refl
numbers-map (x ∷ xs) = ap (x ∷◌) (numbers-map xs)

-- A client notifies through an object of its own and wants replies, it and the owners of all
-- subscribers are connected, and its request waits for ubusd alone and gets the list of
-- subscribers as ubusd sends it: ubusd sends the list to the notifier and one notification to each
-- subscriber on it, in their order, with the notifier as the peer and the sequence number of the
-- request; the request then waits for exactly the first 16 subscribers of the list, and is
-- complete at once, with status 0, exactly when there is none.
pub notify_agreed :
    (cl id : ℕ) (method : CString) (ub : MsgBuf) (d : Daemon) (o : Object) (cs : List ℕ) (A : App)
    (r : ℕ) (m : Incoming) (c : Context) (q : Request) {y : Client}
    → ub.attrs.method ≡ some method
    → ub.attrs.objid ≡ some id
    → ub.attrs.no_reply ≡ none
    → find_object id d ≡ some o
    → o.client ≡ some cl
    → find cl d.clients ≡ some y
    → OwnedBy o.subscribers cs d
    → m.subscribers ≡ some (map some o.subscribers)
    → request r c ≡ some q
    → q.bits ≡ first_bit
    → length q.ids ≡ max_notify_peers + 1
    → let waits_for = take max_notify_peers o.subscribers in
      (handle_notify cl ub d
        ≡ some (
          consumed,
          record d {
            log =
                freed
                ∷ add_notices cl method ub o.subscribers cs
                    (sent cl (listing id ub o.subscribers) ∷ d.log);
          },
        ))
      × ((c1 : Context) × (q1 : Request) × (request r c1 ≡ some q1)
          × (outstanding q1.bits q1.ids ≡ waits_for)
          × (process_notify_status A r 0 m c
              ≡ (if is_empty waits_for then set_req_status A r 0 c1 else some c1)))
notify_agreed cl id method ub d o cs A r m c q hm hi hn ho hc hy h ms hq hb hl =
    let ids : numbers (peers_of m) ≡ o.subscribers =
      ap (λ s. numbers (elim s as (λ _. List (Option ℕ)) [ none ↦ [] | some ps ↦ ps ])) ms
      ∙ numbers-map o.subscribers in
    let (c1, q1, e, out, res) = notify_started A r m c q hq hb hl in
    (
      handle_notify-listed cl id method ub d o cs hm hi hn ho hc hy h,
      (
        c1,
        q1,
        e,
        out ∙ ap (take max_notify_peers) ids,
        res
            ∙ ap
                (λ l.
                  if is_empty (take max_notify_peers l) then set_req_status A r 0 c1 else some c1)
                ids,
      ),
    )
