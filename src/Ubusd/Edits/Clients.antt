-- ===== src/Ubusd/Edits/Clients.antt =====
-- Clients that come and go, and whole runs of ubusd, as sequences of single changes.
use libubus_jni.Prelude.{
  ℕ, zero, suc, ◌+◌, List, [], ◌∷◌, some, Ensures, fault, ensured, >>=-Ensures, Ensures-any,
  Option-cases, inl, inr, ◌>>=◌, length,
}
use libubus_jni.Libubox.Tree.{find, id_ord}
use libubus_jni.Ubusd.State.{Daemon}
use libubus_jni.Ubusd.Id.{alloc_id}
use libubus_jni.Ubusd.Id.Fresh.{alloc_id-fresh}
use libubus_jni.Ubusd.Object.{free_object}
use libubus_jni.Ubusd.Proto.Reply.{send_hello}
use libubus_jni.Ubusd.Proto.Client.{new_client, free_objects, free_client}
use libubus_jni.Ubusd.Edits.{Edits, done, next, client_add, client_delete, count}
use libubus_jni.Ubusd.Edits.Events.{Edits-bind, Edits-after, send_to-Edits}
use libubus_jni.Ubusd.Edits.Objects.{free_object-Edits}

pub new_client-Edits : (d : Daemon) → Ensures (λ r. Edits d r.1) (new_client d)
unfolding new_client send_hello
new_client-Edits d =
    elim (Option-cases (alloc_id 0 (record { objects = [] }) d.clients d.random).0) [
      | inl e ↦ rw (e, new_client) (ensured (next done (count _ _ _ _)))
      | inr ((c, clients), e) ↦
          let (free, placed) = alloc_id-fresh _ d.clients 0 d.random e in
          rw (e, new_client)
            (rw placed (
              Edits-after (next (next done (client_add c _ free)) (count _ _ _ _))
                (>>=-Ensures (send_to-Edits (some c) _ _) λ d1 s. ensured s)))
    ]

free_objects-Edits : (fuel cl : ℕ) (d : Daemon) → Ensures (Edits d) (free_objects fuel cl d)
unfolding free_objects
free_objects-Edits zero cl d = fault
free_objects-Edits (suc fuel) cl d = >>=-Ensures (Ensures-any (find cl d.clients)) λ c _.
    go c.objects (λ id. Edits-bind (λ x. x) (free_object-Edits id d) (free_objects-Edits fuel cl))
  where
    go :
        (ids : List ℕ)
        → ((id : ℕ) → Ensures (Edits d) (free_object id d >>= free_objects fuel cl))
        → Ensures
            (Edits d)
            (elim ids [ [] ↦ some d | id ∷ _ ↦ free_object id d >>= free_objects fuel cl ])
    go [] h = ensured done
    go (id ∷ ids) h = h id

pub free_client-Edits : (cl : ℕ) (d : Daemon) → Ensures (Edits d) (free_client cl d)
unfolding free_client
free_client-Edits cl d = >>=-Ensures (Ensures-any (find cl d.clients)) λ c _.
    >>=-Ensures (free_objects-Edits (length c.objects + 1) cl d)
      λ d1 s. ensured (next s (client_delete cl))
