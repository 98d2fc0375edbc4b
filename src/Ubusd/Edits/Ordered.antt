-- ===== src/Ubusd/Edits/Ordered.antt =====
-- The order of the trees, in every state that ubusd can reach.
use libubus_jni.Prelude.{ℕ, List, [], ◌∷◌, Ensures-some, ◌==◌, Bool-cases, inl, inr}
use libubus_jni.Libubox.Text.{CString}
use libubus_jni.Libubox.Tree.{find, place, update, id_ord, string_ord, insert}
use libubus_jni.Libubox.Tree.Sorted.{
  Sorted, SortedFrom, Strict, SortedFrom-Sorted, SortedFrom-weaken, place-Strict, update-Strict,
  delete-Strict, place-Sorted,
}
use libubus_jni.Ubusd.Message.{Blobmsg}
use libubus_jni.Ubusd.State.{Daemon, EventSource, add_log}
use libubus_jni.Ubusd.Event.{delete_at}
use libubus_jni.Ubusd.Id.{alloc_id}
use libubus_jni.Ubusd.Proto.Client.{init}
use libubus_jni.Ubusd.Run.{Step, Reach, connect, message, disconnect, start, step}
use libubus_jni.Ubusd.Edits.{
  Edit, Edits, done, next, object_set, object_add, object_delete, type_set, type_add, type_delete,
  client_set, client_add, client_delete, path_add, path_delete, pattern_add, pattern_delete, count,
  send, close,
}
use libubus_jni.Ubusd.Edits.Handlers.{receive_message-Received}
use libubus_jni.Ubusd.Edits.Clients.{new_client-Edits, free_client-Edits}

-- The keys of each tree ascend, and differ but for the patterns'.
abbrev pub Ordered : Daemon → Type 0
Ordered d =
    Strict d.objects × Strict d.obj_types × Strict d.clients × Strict d.path × Sorted d.patterns

delete_at-SortedFrom :
    (p : CString) (a : ℕ) (t : List (CString × EventSource))
    → SortedFrom p t
    → SortedFrom p (delete_at a t)
unfolding delete_at
delete_at-SortedFrom p a [] s = tt
delete_at-SortedFrom p a ((k, ev) ∷ t) s = elim (Bool-cases (a == ev.address)) [
  | inl e ↦ rw (e, delete_at) (SortedFrom-weaken p k t s.0 s.1)
  | inr n ↦ rw (n, delete_at) (s.0, delete_at-SortedFrom k a t s.1)
]

delete_at-Sorted : (a : ℕ) (t : List (CString × EventSource)) → Sorted t → Sorted (delete_at a t)
unfolding delete_at
delete_at-Sorted a [] s = tt
delete_at-Sorted a ((k, ev) ∷ t) s = elim (Bool-cases (a == ev.address)) [
  | inl e ↦ rw (e, delete_at) (SortedFrom-Sorted k t s)
  | inr n ↦ rw (n, delete_at) (delete_at-SortedFrom k a t s)
]

Edit-Ordered : {d e : Daemon} → Edit d e → Ordered d → Ordered e
unfolding add_log
Edit-Ordered (object_set id f) o = (update-Strict id f _ o.0, o.1, o.2, o.3, o.4)
Edit-Ordered (object_add id x h) o = (place-Strict id x _ o.0 h, o.1, o.2, o.3, o.4)
Edit-Ordered (object_delete id) o = (delete-Strict id _ o.0, o.1, o.2, o.3, o.4)
Edit-Ordered (type_set t f) o = (o.0, update-Strict t f _ o.1, o.2, o.3, o.4)
Edit-Ordered (type_add t x h) o = (o.0, place-Strict t x _ o.1 h, o.2, o.3, o.4)
Edit-Ordered (type_delete t) o = (o.0, delete-Strict t _ o.1, o.2, o.3, o.4)
Edit-Ordered (client_set c f) o = (o.0, o.1, update-Strict c f _ o.2, o.3, o.4)
Edit-Ordered (client_add c x h) o = (o.0, o.1, place-Strict c x _ o.2 h, o.3, o.4)
Edit-Ordered (client_delete c) o = (o.0, o.1, delete-Strict c _ o.2, o.3, o.4)
Edit-Ordered (path_add p id h) o = (o.0, o.1, o.2, place-Strict p id _ o.3 h, o.4)
Edit-Ordered (path_delete p) o = (o.0, o.1, o.2, delete-Strict p _ o.3, o.4)
Edit-Ordered (pattern_add k ev) o = (o.0, o.1, o.2, o.3, place-Sorted k ev _ o.4)
Edit-Ordered (pattern_delete a) o = (o.0, o.1, o.2, o.3, delete_at-Sorted a _ o.4)
Edit-Ordered (count s e a r) o = o
Edit-Ordered (send c m) o = o
Edit-Ordered (close fd) o = o

Edits-Ordered : {d e : Daemon} → Edits d e → Ordered d → Ordered e
Edits-Ordered done o = o
Edits-Ordered (next r x) o = Edit-Ordered x (Edits-Ordered r o)

init-Ordered : (random : List ℕ) → Ordered (init random)
unfolding init alloc_id insert find place update
init-Ordered random = (tt, tt, tt, tt, tt)

Step-Ordered : {B : Blobmsg} {d e : Daemon} → Step B d e → Ordered d → Ordered e
unfolding add_log
Step-Ordered (connect c h) o = Edits-Ordered (Ensures-some (new_client-Edits _) h) o
Step-Ordered {B} (message cl ub h) o =
    let (f, before, behind) = Ensures-some (receive_message-Received B cl ub _) h in
    Edits-Ordered behind (Edits-Ordered before o)
Step-Ordered (disconnect cl h) o = Edits-Ordered (Ensures-some (free_client-Edits cl _) h) o

-- In every state that ubusd reaches, whatever its clients do and whatever values the random source
-- gives, the ids of objects, types and clients and the paths of objects stand in strictly
-- ascending order in their trees, so that no two entries share one, and the event patterns in
-- ascending order. So the trees of paths and patterns are sorted as lookups and events need it.
Reach-Ordered : (B : Blobmsg) (random : List ℕ) (d : Daemon) → Reach B random d → Ordered d
Reach-Ordered B random d start = init-Ordered random
Reach-Ordered B random d (step r s) = Step-Ordered s (Reach-Ordered B random _ r)
