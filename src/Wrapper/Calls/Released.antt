-- ===== src/Wrapper/Calls/Released.antt =====
-- `ubus_wrap_release` keeps flags, list and requests in agreement
-- (java_ubus_example/jni/ubus_wrapper.c).
use libubus_jni.Prelude.{
  ℕ, ◌-◌, ◌≡◌, ◌≢◌, refl, sym, ap, ◌∙◌, arith, List, [], ◌∷◌, Option, none, some, if◌then◌else◌,
  ◌>>=◌, ◌==◌, Bool-cases, Option-cases, inl, inr, Ensures, fault, ensured, >>=-Ensures, if-Ensures,
}
use libubus_jni.Libubox.Text.{CString}
use libubus_jni.Libubox.Tree.{find, id_ord}
use libubus_jni.Ubusd.Message.{Blob}
use libubus_jni.Ubusd.State.{remove_first}
use libubus_jni.Libubus.Request.{abort_request}
use libubus_jni.Libubus.Request.Due.{apart}
use libubus_jni.Libubus.Request.Due.Messages.{abort_request-Owes}
use libubus_jni.Wrapper.Calls.{Wrap, Wrapper, quiet_log, on_calls, without, release}
use libubus_jni.Wrapper.Calls.Balanced.{Balanced, count, ret_bit}
use libubus_jni.Wrapper.Calls.Operations.{Balanced-Owes, handled-Balanced}

module _ {ℓ} {A : Type ℓ} where
  pub find-without_self : (u : ℕ) (t : List (ℕ × A)) → find u (without u t) ≡ none
  unfolding find without
  find-without_self u [] = refl
  find-without_self u ((k, a) ∷ t) = ground (arith, find-without_self u t)

  find-without_ne : (u v : ℕ) (t : List (ℕ × A)) → v ≢ u → find u (without v t) ≡ find u t
  unfolding find without
  find-without_ne u v [] h = refl
  find-without_ne u v ((k, a) ∷ t) h = ground (arith, find-without_ne u v t h)

count-remove_first_self : (u : ℕ) (rs : List ℕ) → count u (remove_first u rs) ≡ count u rs - 1
unfolding remove_first
count-remove_first_self u [] = refl
count-remove_first_self u (r ∷ rs) = ground (arith, count-remove_first_self u rs)

count-remove_first_ne : (u v : ℕ) (rs : List ℕ) → v ≢ u → count u (remove_first v rs) ≡ count u rs
unfolding remove_first
count-remove_first_ne u v [] h = refl
count-remove_first_ne u v (r ∷ rs) h = ground (arith, count-remove_first_ne u v rs h)

-- The block goes, and its request and its place in the list with it.
abbrev freed : ℕ → Wrap → Wrapper → Wrapper
freed v w W = record W {
  wraps = without v W.wraps;
  returns = if w.ret_pending then remove_first v W.returns else W.returns;
  ctx = record W.ctx { memory = without v W.ctx.memory };
}

module _ (u f : ℕ) where
  freed-Balanced :
      (v : ℕ) (w : Wrap) (W : Wrapper)
      → find v W.wraps ≡ some w
      → Balanced u 0 f W
      → (g : ℕ) × Balanced u 0 g (freed v w W)
  freed-Balanced v w W e b = elim (Bool-cases (v == u)) [
    | inr n ↦
        let apart_ids : v ≢ u = ground arith in
        let same = count-remove_first_ne u v W.returns apart_ids in
        (
          f,
          rw (find-without_ne u v W.wraps apart_ids, find-without_ne u v W.ctx.memory apart_ids)
              (record {
                req = b.req;
                ret = ground (arith, b.ret, same);
                sum = b.sum;
                one = b.one;
                held = b.held;
              }),
        )
    | inl y ↦
        let eq : v ≡ u = ground arith in
        let at : find u W.wraps ≡ some w = ap (λ k. find k W.wraps) (sym eq) ∙ e in
        let once = ap ret_bit at in
        let less = count-remove_first_self u W.returns in
        (
          0,
          rw (eq, find-without_self u W.wraps, find-without_self u W.ctx.memory)
              (record {
                req = refl;
                ret = ground (arith, b.ret, once, less);
                sum = refl;
                one = omega arith;
                held = refl;
              }),
        )
  ]

  pub release-Balanced :
      (format : Option Blob → CString) (fuel v : ℕ) (W : Wrapper)
      → Balanced u 0 f W
      → Ensures (λ W1. (g : ℕ) × Balanced u 0 g W1) (release format fuel v W)
  unfolding release
  release-Balanced format fuel v W b =
      elim (Option-cases (find v W.wraps))
        as (λ _. Ensures (λ W1. (g : ℕ) × Balanced u 0 g W1) (release format fuel v W)) [
          | inl e ↦ rw (e, release) (ensured (f, b))
          | inr (w, e) ↦
              rw (e, release) (>>=-Ensures (aborted w) λ W1 b1. found W1 b1 (find v W1.wraps) refl)
        ]
    where
      aborted :
          (w : Wrap)
          → Ensures (Balanced u 0 f) (
              if w.req_pending
              then (if W.connected
                  then (abort_request apart fuel v (quiet_log W.ctx) >>= λ c.
                      some (on_calls format c.log (record W { ctx = c })))
                  else none)
              else some W)
      aborted w =
          if-Ensures w.req_pending
            (if-Ensures W.connected
              (>>=-Ensures
                (abort_request-Owes u _ _ fuel v (quiet_log W.ctx) (Balanced-Owes format u f W b))
                λ c o. ensured (handled-Balanced format u f W c b o))
              fault)
            (ensured b)

      found :
          (W1 : Wrapper)
          → Balanced u 0 f W1
          → (o : Option Wrap) → find v W1.wraps ≡ o
          → Ensures (λ W2. (g : ℕ) × Balanced u 0 g W2) (o >>= λ w1. some (freed v w1 W1))
      found W1 b1 none e = fault
      found W1 b1 (some w1) e = ensured (freed-Balanced v w1 W1 e b1)
