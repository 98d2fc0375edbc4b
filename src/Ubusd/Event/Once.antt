-- ===== src/Ubusd/Event/Once.antt =====
-- An event goes to an object at most once (ubus/ubusd_event.c).
use mathlib.Core.Option.{some-injective}
use mathlib.Core.Option
use native.Mathlib.Decide.{ℕ_discrete}
use libubus_jni.Prelude.{
  ℕ, ◌+◌, ◌%◌, ◌≤◌, ◌≡◌, refl, sym, ap, ◌∙◌, ◌≢◌, ◌⊎◌, inl, inr, arith, Bool, true, false, List, [],
  ◌∷◌, Option, none, some, ◌==◌, ltb, Option-cases, Bool-cases, Ensures, fault, ensured,
  >>=-Ensures, if-Ensures, Ensures-some, if◌then◌else◌,
}
use libubus_jni.Libubox.Text.{CString}
use libubus_jni.Libubox.Tree.{find, update, id_ord, string_ord}
use libubus_jni.Libubox.Tree.Find.{find-update_self, find-update_ne}
use libubus_jni.Ubusd.Message.{Message, MsgType, built, received, put_objid, u32_mod, u16_mod}
use libubus_jni.Ubusd.State.{
  Object, EventSource, Daemon, Effect, sent, freed, closed, find_object, set_object, send_to,
  add_log, same_client,
}
use libubus_jni.Ubusd.Event.{Fill, strmatch_len, send_event_msg, send_event_loop, send_event}

-- Whether a message names the object in its first attribute.
abbrev pub is_for : ℕ → Message → Bool
is_for x m = elim m.body [
  | built fs ↦ elim fs [ [] ↦ false | f ∷ _ ↦ elim f [ put_objid y ↦ y == x | _ ↦ false ] ]
  | received _ ↦ false
]

-- How many messages were sent that name the object first.
abbrev pub count_for : ℕ → List Effect → ℕ
count_for x [] = 0
count_for x (sent c m ∷ log) = if is_for x m then count_for x log + 1 else count_for x log
count_for x (freed ∷ log) = count_for x log
count_for x (closed fd ∷ log) = count_for x log

-- The object has seen the event that is being sent.
abbrev pub Seen : ℕ → Daemon → Type 0
Seen x d = (o : Object) × (find_object x d ≡ some o) × (o.event_seen ≡ d.obj_event_seq)

-- Since the count was `n`, at most one message more, and then the object has seen the event.
abbrev pub Once : ℕ → ℕ → Daemon → Type 0
Once x n d = (count_for x d.log ≡ n) ⊎ ((count_for x d.log ≡ n + 1) × Seen x d)

send_to-Once :
    (x n : ℕ) (c : Option ℕ) (m : Message) (d : Daemon)
    → ((b : ℕ) → Once x n (add_log (sent b m) d))
    → Ensures (Once x n) (send_to c m d)
unfolding send_to
send_to-Once x n none m d h = fault
send_to-Once x n (some c) m d h = elim (Option-cases (find c d.clients)) [
  | inl e ↦ rw (e, send_to) fault
  | inr (y, e) ↦ rw (e, send_to) (ensured (h c))
]

-- The state with the event marked as seen.
abbrev pub marked : ℕ → ℕ → Daemon → Daemon
marked id seq d = record d {
  objects = update id (λ r. record r { event_seen = d.obj_event_seq }) d.objects;
  event_seq = seq;
}

not-Seen :
    (x : ℕ) (d : Daemon) (o : Object)
    → find_object x d ≡ some o
    → o.event_seen == d.obj_event_seq ≡ false
    → ¬ Seen x d
not-Seen x d o f new (p, g, s) =
    let same : o.event_seen ≡ p.event_seen =
      ap (λ r. r.event_seen) (some-injective o p (sym f ∙ g)) in
    ground (arith, same, s)

marked-Seen :
    (x seq : ℕ) (d : Daemon) (o : Object) → find_object x d ≡ some o → Seen x (marked x seq d)
unfolding find_object
marked-Seen x seq d o f =
    let mark : Object → Object = λ r. record r { event_seen = d.obj_event_seq } in
    (mark o, find-update_self x mark d.objects ∙ ap (Option.map mark) f, refl)

-- The message goes to the object itself.
same-Once :
    (x n seq : ℕ) (d : Daemon) (o : Object)
    → find_object x d ≡ some o
    → o.event_seen == d.obj_event_seq ≡ false
    → Once x n d
    → (count_for x d.log + 1 ≡ n + 1) × Seen x (marked x seq d)
same-Once x n seq d o f new (inl e) = (ap (λ k. k + 1) e, marked-Seen x seq d o f)
same-Once x n seq d o f new (inr (e, seen)) = absurd (not-Seen x d o f new seen)

-- It goes to another object.
other-Once :
    (x n id seq : ℕ) (d : Daemon)
    → x ≢ id
    → Once x n d
    → (count_for x d.log ≡ n) ⊎ ((count_for x d.log ≡ n + 1) × Seen x (marked id seq d))
unfolding find_object
other-Once x n id seq d ne (inl e) = inl e
other-Once x n id seq d ne (inr (e, (o, f, s))) =
    inr (e, (o, find-update_ne id x _ d.objects ne ∙ f, s))

marked-Once :
    (x n id seq : ℕ) (d : Daemon) (o : Object) (b : ℕ) (t : MsgType) (fill : Fill)
    → find_object id d ≡ some o
    → o.event_seen == d.obj_event_seq ≡ false
    → Once x n d
    → Once x n (
        add_log
          (sent b (record {
            msg_type = t;
            seq = seq % u16_mod;
            peer = 0;
            fd = none;
            body = built (put_objid id ∷ fill);
          }))
          (marked id seq d))
unfolding find_object add_log
marked-Once x n id seq d o b t fill f new v = elim (ℕ_discrete id x) [
  | yes same ↦
      let own : id == x ≡ true = ground (arith, same) in
      rw own (inr (rw same (same-Once x n seq d o (rw same at f) new v)))
  | no other ↦
      let foreign : id == x ≡ false = ground (arith, other) in
      rw foreign (other-Once x n id seq d (λ e. other (sym e)) v)
]

send_event_msg-Once :
    (x n : ℕ) (cl : Option ℕ) (id : ℕ) (fill : Fill) (d : Daemon)
    → Once x n d
    → Ensures (Once x n) (send_event_msg cl id fill d)
unfolding send_event_msg set_object
send_event_msg-Once x n cl id fill d v = elim (Option-cases (find_object id d)) [
  | inl e ↦ rw (e, send_event_msg) fault
  | inr (o, f) ↦
      rw (f, send_event_msg)
        (if-Ensures (same_client o.client cl) (ensured v)
          (elim (Bool-cases (o.event_seen == d.obj_event_seq)) [
            | inl old ↦ rw old (ensured v)
            | inr new ↦ rw new (
                send_to-Once x n o.client _ (marked id ((d.event_seq + 1) % u32_mod) d) λ b.
                  marked-Once x n id ((d.event_seq + 1) % u32_mod) d o b MsgType.invoke fill f new
                    v)
          ]))
]

send_event_loop-Once :
    (x n : ℕ) (cl : Option ℕ) (name : CString) (fill : Fill) (len : ℕ)
    (t : List (CString × EventSource)) (d : Daemon)
    → Once x n d
    → Ensures (Once x n) (send_event_loop cl name fill len t d)
unfolding send_event_loop
send_event_loop-Once x n cl name fill len [] d v = ensured v
send_event_loop-Once x n cl name fill len ((key, ev) ∷ t) d v =
    let cur = (strmatch_len name key).1 in
    if-Ensures (ltb cur len) (ensured v) (
      if-Ensures _ (send_event_loop-Once x n cl name fill cur t d v) (
        >>=-Ensures (send_event_msg-Once x n cl ev.obj fill d v)
          (send_event_loop-Once x n cl name fill cur t)))

Once-le : (x n : ℕ) (d : Daemon) → Once x n d → count_for x d.log ≤ n + 1
Once-le x n d (inl e) = omega (arith, e)
Once-le x n d (inr (e, s)) = omega (arith, e)

-- Whatever patterns of an object match an event, when `ubusd_send_event` has sent it, at most one
-- more message has gone out that names the object first, as an event does.
pub send_event-Once :
    (x : ℕ) (cl : Option ℕ) (name : CString) (fill : Fill) (d e : Daemon)
    → send_event cl name fill d ≡ some e
    → count_for x e.log ≤ count_for x d.log + 1
unfolding send_event
send_event-Once x cl name fill d e h = Once-le x (count_for x d.log) e (
    Ensures-some (send_event_loop-Once x (count_for x d.log) cl name fill 0 d.patterns _ (inl refl))
      h)
