-- ===== src/Libubus/Registry/Handlers.antt =====
-- ubus/libubus-sub.c and ubus/libubus.c: objects that the library makes for subscribers and event
-- handlers.
use libubus_jni.Prelude.{
  ℕ, ◌≡◌, ◌≢◌, refl, ap, ◌∙◌, Bool, true, false, [], ◌∷◌, Option, none, some, ◌>>=◌, ◌==◌,
  if◌then◌else◌, inl,
}
use mathlib.Core.Option
use libubus_jni.Libubox.Text.{CString}
use libubus_jni.Libubox.Tree.{find, update, id_ord}
use libubus_jni.Libubox.Tree.Find.{find-update_self}
use libubus_jni.Ubusd.Message.{MsgType}
use libubus_jni.Libubus.Object.{
  subscriber_cb, event_cb, Method, Object, ObjMsg, Host, Program, object, request_of, call_handler,
  process_obj_msg, is_set, status_of,
}
use libubus_jni.Libubus.Object.Dispatch.{Calls, taken_buf, given_back, process_obj_msg-first}
use libubus_jni.Libubus.Registry.{Reply, Answer, is_in, add_object}
use libubus_jni.Libubus.Registry.Roundtrip.{add_remove}

-- `watch_method` and `event_method`
abbrev pub watch_method : Method
watch_method = record { name = none; handler = subscriber_cb }

abbrev pub event_method : Method
event_method = record { name = none; handler = event_cb }

-- `obj->methods` and `obj->n_methods`
abbrev pub sole_method : Method → Bool → ℕ → Host → Host
sole_method f watch a h = record h {
  memory = update a (λ x. record x { methods = f ∷ []; is_watch = watch }) h.memory;
}

-- `ubus_register_subscriber`
unfoldable pub register_subscriber : Answer → ℕ → Host → Option (ℕ × Host)
register_subscriber w a h = add_object w a (sole_method watch_method true a h)

-- A name without a type or a type without a name.
abbrev pub half_named : Object → Bool
half_named o = elim o.name [
  | none ↦ elim o.ty [ none ↦ false | some _ ↦ true ]
  | some _ ↦ elim o.ty [ none ↦ true | some _ ↦ false ]
]

-- `ubus_register_event_handler`, where `invoke` is what `ubus_invoke` of the method "register" of
-- object UBUS_SYSTEM_OBJECT_EVENT gives for an object and a pattern.
unfoldable pub register_event_handler :
    Answer → (ℕ → Option CString → ℕ) → ℕ → Option CString → Host → Option (ℕ × Host)
register_event_handler w invoke a pattern h = do
  o ← object a h
  let h0 = sole_method event_method false a h
  let added = do
    (ret, h1) ← add_object w a h0
    p ← object a h1
    some (if ret == 0 then invoke p.id pattern else ret, h1)
  let fresh = if half_named o then some (2, h0) else added
  if o.id == 0 then fresh else some (invoke o.id pattern, h)

object-sole_method :
    (f : Method) (watch : Bool) (a : ℕ) (h : Host) (o : Object)
    → object a h ≡ some o
    → object a (sole_method f watch a h) ≡ some (record o { methods = f ∷ []; is_watch = watch })
unfolding object
object-sole_method f watch a h o e =
    let g : Object → Object = λ x. record x { methods = f ∷ []; is_watch = watch } in
    find-update_self a g h.memory ∙ ap (Option.map g) e

register_event_handler_lem :
    (w : Answer) (invoke : ℕ → Option CString → ℕ) (a : ℕ) (pattern : Option CString) (h h1 : Host)
    (o p : Object)
    → object a h ≡ some o
    → o.id ≡ 0
    → o.name ≡ none
    → o.ty ≡ none
    → add_object w a (sole_method event_method false a h) ≡ some (0, h1)
    → object a h1 ≡ some p
    → register_event_handler w invoke a pattern h ≡ some (invoke p.id pattern, h1)
unfolding register_event_handler
register_event_handler_lem w invoke a pattern h h1 o p at zero unnamed untyped adds there =
    rw (at, register_event_handler) (rw (zero, unnamed, untyped) (rw adds (rw there refl)))

-- The object of a handler behind its registration.
abbrev pub listening : ℕ → Object → Object
listening id o = record o { id = id; methods = event_method ∷ []; is_watch = false }

-- A handler of events without an id, a name and a type is in the memory of the client and not in
-- its tree, and ubusd answers once with a free id that is not 0 and no type:
-- `ubus_register_event_handler` returns what the call of the method "register" for this id and the
-- pattern gives, and then any call with this id, whatever method it names and whether it stands in
-- the buffer of the connection or not, runs `ubus_event_cb` of the handler, once and with that
-- name, sends a status 0 unless the call wants no reply, and gives the buffer back.
pub register_event_handler-receives :
    (P : Program) (in_msgbuf : Bool) (m : ObjMsg) (a id : ℕ) (r : Reply) (h : Host) (o : Object)
    (pattern : Option CString) (invoke : ℕ → Option CString → ℕ) (event : CString)
    → object a h ≡ some o
    → o.id ≡ 0
    → o.name ≡ none
    → o.ty ≡ none
    → is_in a h.objects ≡ false
    → find id h.objects ≡ none
    → id ≢ 0
    → r.objid ≡ some id
    → r.objtype ≡ none
    → m.msg_type ≡ MsgType.invoke
    → m.objid ≡ some id
    → m.method ≡ some event
    → (h1 : Host) × (register_event_handler
          (record { started = true; replies = r ∷ []; ret = 0 })
          invoke
          a
          pattern
          h
        ≡ some (invoke id pattern, h1))
      × (process_obj_msg in_msgbuf P m h1
          ≡ some (
              given_back in_msgbuf h1 (
                let req = request_of (listening id o) m in
                let h2 = (P.run event_cb a req event m.payload (taken_buf in_msgbuf h1)).2 in
                if is_set m.no_reply then h2 else record h2 { sent = status_of req 0 ∷ h2.sent })))
unfolding call_handler
register_event_handler-receives P in_msgbuf m a id r h o pattern invoke event at zero unnamed
      untyped outside free nz ri rt mi mo me =
    let h0 = sole_method event_method false a h in
    let o0 : Object = record o { methods = event_method ∷ []; is_watch = false } in
    let (h1, _, adds, there, filed, _, _, _) =
      add_remove a id r r h0 o0 (object-sole_method event_method false a h o at) outside free nz
        (inl rt) ri ri in
    let c : Calls m a (listening id o) event h1 = record {
      invokes = mi;
      id = id;
      names_object = mo;
      registered = filed;
      in_memory = there;
      names_method = me;
    } in
    (
      h1,
      register_event_handler_lem (record { started = true; replies = r ∷ []; ret = 0 }) invoke a
          pattern h h1 o (listening id o) at zero unnamed untyped adds there,
      process_obj_msg-first P in_msgbuf m a (listening id o) event h1 [] event_method [] c refl tt
          refl,
    )
