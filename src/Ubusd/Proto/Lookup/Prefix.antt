-- ===== src/Ubusd/Proto/Lookup/Prefix.antt =====
-- Which objects a lookup by a prefix finds.
use mathlib.Core.Path.{fun_ext}
use libubus_jni.Prelude.{
  ℕ, ◌≡◌, refl, sym, ap, suc, >>=_assoc, or-true, ◌≢◌, Bool, true, false, ◌||◌, List, [], ◌∷◌, none,
  some, ◌∙◌, Ordering, arith, length, filter, ◌>>=◌, Bool-cases, inl, inr, if◌then◌else◌,
}
use libubus_jni.Libubox.Text.{CString, strcmp, strncmp_eq, last_or, cut_last, cut_length}
use libubus_jni.Libubox.Tree.{string_ord, find_ge}
use libubus_jni.Libubox.Tree.Sorted.{
  Sorted, SortedFrom, SortedFrom-Sorted, SortedFrom-weaken, le_trans,
}
use libubus_jni.Ubusd.Message.{
  MsgBuf, Text, Status, MsgType, Message, built, put_objid, put_objtype, put_signature,
}
use libubus_jni.Libubox.Tree.{find, id_ord}
use libubus_jni.Ubusd.State.{Daemon, Effect, Object, ObjectType, Client, find_object, add_log, sent}
use libubus_jni.Ubusd.Proto.Reply.{status, send_msg_from_blob}
use libubus_jni.Ubusd.Proto.Call.Routing.{send_to_lem}
use libubus_jni.Ubusd.Proto.Lookup.{path_field, send_obj, send_objs, send_matching, handle_lookup}

-- The path begins with the prefix.
unfoldable pub has_prefix : CString → CString × ℕ → Bool
unfolding strncmp_eq
has_prefix prefix (p, id) = strncmp_eq prefix p (length prefix)

-- Some path of the list does.
unfoldable pub any_prefix : CString → List (CString × ℕ) → Bool
unfolding has_prefix
any_prefix prefix [] = false
any_prefix prefix (e ∷ t) = has_prefix prefix e || any_prefix prefix t

prefix_before : (s p : CString) → strcmp s p ≡ Ordering.gt → strncmp_eq s p (length s) ≡ false
unfolding strcmp strncmp_eq
prefix_before [] [] h = ground arith
prefix_before [] (y ∷ ys) h = ground arith
prefix_before (x ∷ xs) [] h = refl
prefix_before (x ∷ xs) (y ∷ ys) h = ground (arith, prefix_before xs ys)

prefix_past :
    (s p q : CString)
    → strcmp s p ≢ Ordering.gt
    → strncmp_eq s p (length s) ≡ false
    → strcmp p q ≢ Ordering.gt
    → strncmp_eq s q (length s) ≡ false
unfolding strcmp strncmp_eq
prefix_past [] p q h n g = n
prefix_past (x ∷ xs) [] q h n g = ground arith
prefix_past (x ∷ xs) (y ∷ ys) [] h n g = refl
prefix_past (x ∷ xs) (y ∷ ys) (z ∷ zs) h n g = ground (arith, prefix_past xs ys zs)

module _ (s : CString) where
  none_past :
      (p : CString) (t : List (CString × ℕ))
      → strcmp s p ≢ Ordering.gt
      → strncmp_eq s p (length s) ≡ false
      → SortedFrom p t
      → (filter (has_prefix s) t ≡ []) × (any_prefix s t ≡ false)
  unfolding any_prefix
  none_past p [] h n o = (refl, refl)
  none_past p ((q, id) ∷ t) h n o =
      let m = prefix_past s p q h n o.0 in
      ground (arith, m, none_past q t (le_trans s p q h o.0) m o.1)

  find_ge_sound :
      (t : List (CString × ℕ))
      → Sorted t
      → SortedFrom s (find_ge s t)
        × (filter (has_prefix s) (find_ge s t) ≡ filter (has_prefix s) t)
        × (any_prefix s (find_ge s t) ≡ any_prefix s t)
  unfolding find_ge any_prefix
  find_ge_sound [] o = (tt, refl, refl)
  find_ge_sound ((q, id) ∷ t) o =
      ground (arith, find_ge_sound t (SortedFrom-Sorted q t o), prefix_before s q)

  module _ (cl : ℕ) (ub : MsgBuf) where
    send_matching-filter :
        (found : Bool) (t : List (CString × ℕ)) (d : Daemon)
        → SortedFrom s t
        → send_matching cl ub s (length s) found t d ≡ (
            send_objs cl ub (filter (has_prefix s) t) d >>= λ d'.
            some (found || any_prefix s t, d'))
    unfolding send_matching send_objs any_prefix
    send_matching-filter found [] d o = ground arith
    send_matching-filter found ((q, id) ∷ t) d o =
        let tail =
          fun_ext λ (x : Daemon). send_matching-filter true t x (SortedFrom-weaken s q t o.0 o.1) in
        elim (Bool-cases (strncmp_eq s q (length s))) [
          | inl hit ↦ rw hit (rw (tail, or-true found) (sym (>>=_assoc (send_obj cl ub id d) _ _)))
          | inr miss ↦ ground (arith, miss, none_past q t o.0 miss o.1)
        ]

cut_length_lem : (s : CString) → s ≢ [] → cut_length s ≡ length (cut_last s)
unfolding cut_length cut_last
cut_length_lem [] h = absurd (h refl)
cut_length_lem (x ∷ []) h = refl
cut_length_lem (x ∷ y ∷ ys) h = ap suc (cut_length_lem (y ∷ ys) (ground arith))

handle_lookup-filter :
    (cl : ℕ) (ub : MsgBuf) (d : Daemon) (p : Text)
    → ub.attrs.objpath ≡ some p
    → last_or p.before p.chars ≡ b'*'
    → p.chars ≢ []
    → Sorted d.path
    → handle_lookup cl ub d ≡ (
        send_objs cl ub (filter (has_prefix (cut_last p.chars)) d.path) d >>= λ d'.
        some (
          status (if any_prefix (cut_last p.chars) d.path then Status.ok else Status.not_found),
          d',
        ))
unfolding handle_lookup
handle_lookup-filter cl ub d p e star ne o =
    let s = cut_last p.chars in
    let (lo, same, any) = find_ge_sound s d.path o in
    rw (e, handle_lookup)
      (rw (star, cut_length_lem p.chars ne)
        (rw (send_matching-filter s cl ub false (find_ge s d.path) d lo)
          (rw (same, any) (>>=_assoc (send_objs cl ub (filter (has_prefix s) d.path) d) _ _))))

-- The reply that describes an object and its type.
abbrev pub described : MsgBuf → ℕ → Object → ℕ → ObjectType → Message
described ub id o t ty = record {
  msg_type = MsgType.data_reply;
  seq = ub.seq;
  peer = ub.peer;
  fd = none;
  body = built (path_field o.path (put_objid id ∷ put_objtype t ∷ put_signature ty.methods ∷ []));
}

-- The objects that these elements of the tree of paths lead to have types, and these replies
-- describe them, in the order of the elements.
pub data Described (ub : MsgBuf) (d : Daemon) : List (CString × ℕ) → List Message → Type 0 where
  no_more : Described ub d [] []
  one_more :
      {p : CString} {id t : ℕ} {es : List (CString × ℕ)} {ms : List Message} {o : Object}
      {ty : ObjectType}
      → find_object id d ≡ some o
      → o.obj_type ≡ some t
      → find t d.obj_types ≡ some ty
      → Described ub d es ms
      → Described ub d ((p, id) ∷ es) (described ub id o t ty ∷ ms)

-- Messages to a client, each logged.
unfoldable pub logged : ℕ → List Message → Daemon → Daemon
logged cl [] d = d
logged cl (m ∷ ms) d = logged cl ms (add_log (sent cl m) d)

send_obj-logged :
    (cl : ℕ) (ub : MsgBuf) (d : Daemon) (x : Client) (id t : ℕ) (o : Object) (ty : ObjectType)
    → find cl d.clients ≡ some x
    → find_object id d ≡ some o
    → o.obj_type ≡ some t
    → find t d.obj_types ≡ some ty
    → send_obj cl ub id d ≡ some (add_log (sent cl (described ub id o t ty)) d)
unfolding send_obj send_msg_from_blob
send_obj-logged cl ub d x id t o ty c f u g =
    rw (f, send_obj) (rw u (rw g (send_to_lem cl (described ub id o t ty) d c)))

-- The log does not matter for what is sent.
send_objs-logged :
    (cl : ℕ) (ub : MsgBuf) (d : Daemon) (x : Client) (l : List Effect) {es : List (CString × ℕ)}
    {ms : List Message}
    → find cl d.clients ≡ some x
    → Described ub d es ms
    → send_objs cl ub es (record d { log = l }) ≡ some (logged cl ms (record d { log = l }))
unfolding send_objs logged add_log find_object
send_objs-logged cl ub d x l c no_more = refl
send_objs-logged cl ub d x l c
      (one_more {id = id} {t = t} {es = es} {ms = ms} {o = o} {ty = ty} f u g r) =
    ap (λ r. r >>= send_objs cl ub es)
      (send_obj-logged cl ub (record d { log = l }) x id t o ty c f u g)
    ∙ send_objs-logged cl ub d x (sent cl (described ub id o t ty) ∷ l) c r

-- While the tree of paths is sorted, the requester is connected and every object whose path begins
-- with what stands in front of the `*` has a type, a lookup of a non-empty path that ends in `*`
-- sends the requester one message for each of these objects, in the order of their paths, with the
-- path, the id, the type and the methods of the object, and no other; its status is NOT_FOUND
-- exactly when there is no such path.
pub handle_lookup_wildcard :
    (cl : ℕ) (ub : MsgBuf) (d : Daemon) (p : Text) (x : Client) (ms : List Message)
    → ub.attrs.objpath ≡ some p
    → last_or p.before p.chars ≡ b'*'
    → p.chars ≢ []
    → Sorted d.path
    → find cl d.clients ≡ some x
    → Described ub d (filter (has_prefix (cut_last p.chars)) d.path) ms
    → handle_lookup cl ub d
      ≡ some (
        status (if any_prefix (cut_last p.chars) d.path then Status.ok else Status.not_found),
        logged cl ms d,
      )
handle_lookup_wildcard cl ub d p x ms e star ne o c typed =
    let answer =
      status (if any_prefix (cut_last p.chars) d.path then Status.ok else Status.not_found) in
    handle_lookup-filter cl ub d p e star ne o
    ∙ ap (λ r. r >>= λ d'. some (answer, d')) (send_objs-logged cl ub d x d.log c typed)
