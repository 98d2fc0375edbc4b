-- ===== src/Ubusd/Proto/Objects/Removed.antt =====
-- The reply to the removal of an object that has a subscriber (ubus/ubusd_proto.c, ubus/ubusd_obj.c).
use mathlib.Core.Option
use libubus_jni.Prelude.{
  ℕ, ◌+◌, ◌-◌, ◌%◌, ◌≡◌, ◌≢◌, refl, ap, ◌∙◌, arith, true, false, List, [], ◌∷◌, none, some, length,
  ==_refl, ◌==◌, take, sym, ltb, ◌>>=◌,
}
use libubus_jni.Libubox.Tree.{find, update, delete, id_ord}
use libubus_jni.Libubox.Tree.Find.{find-update_self, find-update_ne}
use libubus_jni.Ubusd.Message.{
  MsgBuf, MsgType, Message, Field, Status, put_objtype, built, put_objid, put_target, put_active,
  u16_mod, u32_mod,
}
use libubus_jni.Ubusd.State.{
  Daemon, Object, ObjectType, Client, Effect, find_object, set_object, same_client, add_log, sent,
  remove_first,
}
use libubus_jni.Ubusd.Subscription.{
  notify_unsubscribe, unsubscribe, unlink_subscription, unsubscribe_all, notify_unsubscribe_all,
}
use libubus_jni.Ubusd.Event.{event_cleanup_object}
use libubus_jni.Ubusd.Object.{free_object, remove_path, unlink_object, unref_type_of}
use libubus_jni.Ubusd.ObjType.{unref_object_type}
use libubus_jni.Ubusd.Proto.Reply.{status, send_msg_from_blob}
use libubus_jni.Ubusd.Proto.Call.Routing.{send_to_lem, same_client_refl}
use libubus_jni.Ubusd.Proto.Objects.{handle_remove_object, last_type, built_or, last_built}

find_object-set_self :
    (id : ℕ) (f : Object → Object) (d : Daemon) (o : Object)
    → find_object id d ≡ some o
    → find_object id (set_object id f d) ≡ some (f o)
unfolding find_object set_object
find_object-set_self id f d o e = find-update_self id f d.objects ∙ ap (Option.map f) e

find_object-set_ne :
    (k j : ℕ) (f : Object → Object) (d : Daemon)
    → j ≢ k
    → find_object j (set_object k f d) ≡ find_object j d
unfolding find_object set_object
find_object-set_ne k j f d ne = find-update_ne k j f d.objects ne

-- The notice of the subscriber `s` of `id`, and the one that the owner of `id` gets when no subscriber
-- is left.
abbrev pub ended : ℕ → ℕ → Object → Message
ended s id p = record {
  msg_type = MsgType.unsubscribe;
  seq = (p.invoke_seq + 1) % u32_mod % u16_mod;
  peer = 0;
  fd = none;
  body = built (put_objid s ∷ put_target id ∷ []);
}

abbrev pub deserted : ℕ → Object → Message
deserted id o = record {
  msg_type = MsgType.notify;
  seq = (o.invoke_seq + 1) % u32_mod % u16_mod;
  peer = 0;
  fd = none;
  body = built (put_objid id ∷ put_active false ∷ []);
}

-- The state behind the notices, where the object has no subscriber.
record Alone (id : ℕ) (o : Object) (l : Effect) (k : Effect) (d e : Daemon) : Type 0 where
  object :
      find_object id e
      ≡ some (record o { subscribers = []; invoke_seq = (o.invoke_seq + 1) % u32_mod })
  clients : e.clients ≡ d.clients
  types : e.obj_types ≡ d.obj_types
  log : e.log ≡ l ∷ k ∷ d.log

abbrev next_seq : Object → ℕ
next_seq o = (o.invoke_seq + 1) % u32_mod

remove_first-one : (s : ℕ) → remove_first s (s ∷ []) ≡ []
unfolding remove_first
remove_first-one s = rw (==_refl s) refl

-- A state where the object is still as it was, and its client connected.
pub record Stays (id cl : ℕ) (o : Object) (x : Client) (e : Daemon) : Type 0 where
  pub object : find_object id e ≡ some o
  pub client : find cl e.clients ≡ some x

-- The client without the object.
abbrev lost : ℕ → Client → Client
lost id r = record r { objects = remove_first id r.objects }

two_more : (l : List Effect) (a b : Effect) → length (a ∷ b ∷ l) - length l ≡ 2
two_more l a b = omega arith

last_built-two :
    (cl c : ℕ) (m1 m2 : Message) (l : List Effect) (fs gs : List Field)
    → m1.body ≡ built gs
    → last_built
        (take (length (sent cl m1 ∷ sent c m2 ∷ l) - length l) (sent cl m1 ∷ sent c m2 ∷ l))
        fs
      ≡ gs
unfolding last_built
last_built-two cl c m1 m2 l fs gs e =
    ap (λ k. last_built (take k (sent cl m1 ∷ sent c m2 ∷ l)) fs)
      (two_more l (sent cl m1) (sent c m2))
    ∙ ap (λ b. built_or b (last_built (sent c m2 ∷ []) fs)) e

abbrev alone : Object → Object
alone o = record o { subscribers = [] }

module _ (cl id s : ℕ) (o : Object) (x : Client) (owned : o.client ≡ some cl)
    (only : o.subscribers ≡ s ∷ []) (ne : s ≢ id) where
  unlink_subscription-last :
      (e : Daemon)
      → find_object id e ≡ some o
      → find_object id (unlink_subscription s id e) ≡ some (alone o)
  unfolding unlink_subscription
  unlink_subscription-last e h =
      find_object-set_ne s id _ _ (λ q. ne (sym q))
      ∙ find_object-set_self id _ e o h
      ∙ ap (λ z. some (record o { subscribers = z }))
          (ap (remove_first s) only ∙ remove_first-one s)

  unsubscribe-last :
      (e : Daemon)
      → Stays id cl o x e
      → unsubscribe s id e
        ≡ some (
            add_log (sent cl (deserted id o)) (
              set_object id
                (λ r. record r { invoke_seq = next_seq o })
                (unlink_subscription s id e)))
  unfolding unsubscribe unlink_subscription set_object
  unsubscribe-last e k =
      rw (unlink_subscription-last e k.object, unsubscribe)
        (rw owned (
          send_to_lem cl (deserted id o)
            (set_object id (λ r. record r { invoke_seq = next_seq o }) (unlink_subscription s id e))
            k.client))

  module _ (c : ℕ) (d : Daemon) (p : Object) (y : Client) (k : Stays id cl o x d)
      (other : find_object s d ≡ some p) (theirs : p.client ≡ some c)
      (away : find c d.clients ≡ some y) where
    abbrev told : Daemon
    told =
        add_log (sent c (ended s id p)) (set_object s (λ r. record r { invoke_seq = next_seq p }) d)

    told-Stays : Stays id cl o x told
    unfolding add_log set_object find_object
    told-Stays = record {
      object = find_object-set_ne s id _ d (λ q. ne (sym q)) ∙ k.object;
      client = k.client;
    }

    notify_unsubscribe-last :
        notify_unsubscribe s id d
        ≡ some (
            add_log (sent cl (deserted id o)) (
              set_object id
                (λ r. record r { invoke_seq = next_seq o })
                (unlink_subscription s id told)))
    unfolding notify_unsubscribe set_object
    notify_unsubscribe-last =
        rw (other, notify_unsubscribe)
          (rw (theirs) (
            ap (λ r. r >>= unsubscribe s id)
              (send_to_lem c (ended s id p)
                (set_object s (λ r. record r { invoke_seq = next_seq p }) d) away)
            ∙ unsubscribe-last told told-Stays))

    notify_unsubscribe-Alone :
        (e : Daemon) × (notify_unsubscribe s id d ≡ some e)
        × Alone id o (sent cl (deserted id o)) (sent c (ended s id p)) d e
    unfolding add_log set_object unlink_subscription find_object
    notify_unsubscribe-Alone = (
      _,
      notify_unsubscribe-last,
      record {
        object =
            find_object-set_self id _ (unlink_subscription s id told) (alone o)
              (unlink_subscription-last told told-Stays.object);
        clients = refl;
        types = refl;
        log = refl;
      },
    )

    -- The object has a type that no other object has, and nothing else.
    module _ (t : ℕ) (ty : ObjectType) (unnamed : o.path ≡ none) (subscribed : o.target_list ≡ [])
        (deaf : o.events ≡ []) (typed : o.obj_type ≡ some t) (type : find t d.obj_types ≡ some ty)
        (unshared : ty.refcount ≡ 1) where
      free_object-last :
          (f : Daemon) × (free_object id d ≡ some f)
          × (f.obj_types ≡ delete t d.obj_types)
          × (f.log ≡ sent cl (deserted id o) ∷ sent c (ended s id p) ∷ d.log)
          × (find cl f.clients ≡ some (lost id x))
      unfolding free_object unsubscribe_all notify_unsubscribe_all event_cleanup_object remove_path
          unlink_object unref_type_of unref_object_type
      free_object-last =
          let (e, tells, a) = notify_unsubscribe-Alone in
          let gone : ltb 0 (ty.refcount - 1) ≡ false = ground (arith, unshared) in
          (
            record e {
              clients = update cl (lost id) e.clients;
              objects = delete id e.objects;
              obj_types = delete t e.obj_types;
            },
            rw (k.object, free_object)
                (rw (subscribed, k.object, only)
                  (rw tells (
                    rw (a.object)
                      (rw (deaf, unnamed, owned, typed) (rw (a.types, type) (rw gone refl)))))),
            ap (delete t) a.types,
            a.log,
            find-update_self cl (lost id) e.clients
                ∙ ap (λ z. Option.map (lost id) (find cl z)) a.clients
                ∙ ap (Option.map (lost id)) k.client,
          )

      last_type-lem : last_type o.obj_type d ≡ some (put_objtype t ∷ [])
      unfolding last_type
      last_type-lem =
          let one : ty.refcount == 1 ≡ true = ground (arith, unshared) in
          rw (typed, last_type) (rw type (rw one refl))

      -- A connected client removes an object of its own that has no path, no subscriptions of its
      -- own and no event patterns, a type that no other object has, and one subscriber, another
      -- object, of a connected client: ubusd returns the status OK, deletes the type, tells the
      -- client of the subscriber that the subscription is over and the owner that nobody is
      -- subscribed, and sends the owner a reply with the attributes of the message before it, so
      -- without the id of the type.
      pub handle_remove_object-overwritten :
          (ub : MsgBuf)
          → ub.attrs.objid ≡ some id
          → (d1 : Daemon) × (handle_remove_object cl ub d ≡ some (status Status.ok, d1))
            × (d1.obj_types ≡ delete t d.obj_types)
            × (d1.log
                ≡ sent cl (record {
                  msg_type = MsgType.data_reply;
                  seq = ub.seq;
                  peer = ub.peer;
                  fd = none;
                  body = built (put_objid id ∷ put_active false ∷ []);
                })
                  ∷ sent cl (deserted id o)
                  ∷ sent c (ended s id p)
                  ∷ d.log)
      unfolding handle_remove_object send_msg_from_blob add_log
      handle_remove_object-overwritten ub hi =
          let (f, frees, types, log, mine) = free_object-last in
          let same : same_client o.client (some cl) ≡ true =
            ap (λ z. same_client z (some cl)) owned ∙ same_client_refl cl in
          let answer : Message = record {
            msg_type = MsgType.data_reply;
            seq = ub.seq;
            peer = ub.peer;
            fd = none;
            body = built (put_objid id ∷ put_active false ∷ []);
          } in
          let fields : last_built (take (length f.log - length d.log) f.log)
                (put_objid id ∷ put_objtype t ∷ [])
              ≡ put_objid id ∷ put_active false ∷ [] =
            rw log (
              last_built-two cl c (deserted id o) (ended s id p) d.log
                (put_objid id ∷ put_objtype t ∷ []) _ refl) in
          (
            add_log (sent cl answer) f,
            rw (hi, handle_remove_object)
                (rw k.object (
                  rw same (
                    rw last_type-lem
                      (rw frees (rw fields (rw (send_to_lem cl answer f mine) refl)))))),
            types,
            ap (λ l. sent cl answer ∷ l) log,
          )
