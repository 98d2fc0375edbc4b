-- ===== src/Wrapper/Calls/Operations.antt =====
-- Each operation on calls keeps the flags, the list of returns and the requests of libubus in
-- agreement (java_ubus_example/jni/ubus_wrapper.c).
use mathlib.Core.Option
use mathlib.Core.Path.{subst}
use libubus_jni.Prelude.{
  ℕ, ◌+◌, ◌≡◌, refl, sym, ap, ◌∙◌, arith, Bool, true, List, [], ◌∷◌, Option, none, some,
  if◌then◌else◌, ◌==◌, Bool-cases, Option-cases, inl, inr, Ensures, ensured, >>=-Ensures,
}
use libubus_jni.Libubox.Text.{CString}
use libubus_jni.Libubox.Tree.{find, update, id_ord}
use libubus_jni.Ubusd.Message.{Blob}
use libubus_jni.Libubus.Request.{Incoming, Context}
use libubus_jni.Libubus.Request.Due.{Owes}
use libubus_jni.Libubus.Request.Due.Messages.{process_req_msg-Owes}
use libubus_jni.Wrapper.Calls.{
  Wrap, Wrapper, blank, blank_request, wrap_context, returning, on_calls, quiet_log, receive,
  invoke_fail,
}
use libubus_jni.Wrapper.Calls.Balanced.{
  Bits, Balanced, Bits-update, map-Bits, Bits-count, on_calls-Balanced, count, count-append,
  req_bit, ret_bit, is_held,
}

pub find-cons {ℓ} :
    {A : Type ℓ} (k v : ℕ) (x : A) (t : List (ℕ × A))
    → find k ((v, x) ∷ t) ≡ (if v == k then some x else find k t)
unfolding find
find-cons k v x t = ground arith

-- What a failed and a started call do to the bits of their block.
failed-Bits :
    (o : Option Wrap) (a n : ℕ) (h : Bool)
    → is_held o ≡ true
    → Bits o a n 0 0 h
    → Bits (Option.map (returning none) o) a (n + 1) 0 1 h
failed-Bits none a n h y b = cc
failed-Bits (some w) a n h y b = record {
  req = b.req;
  ret = ground (arith, b.ret, b.sum);
  sum = ground (arith, b.sum);
  one = omega arith;
  held = b.held;
}

pub started-Bits :
    (o : Option Wrap) (n : ℕ) (h : Bool)
    → is_held o ≡ true
    → Bits o 0 n 0 0 h
    → Bits (Option.map {A = Wrap} (λ w. record w { req_pending = true }) o) 1 n 0 1 h
started-Bits none n h y b = cc
started-Bits (some w) n h y b = record {
  req = omega arith;
  ret = ground (arith, b.ret, b.sum);
  sum = ground (arith, b.sum);
  one = omega arith;
  held = b.held;
}

module _ (format : Option Blob → CString) (u f : ℕ) where
  -- What libubus owes to a block whose flags are right.
  pub Balanced-Owes :
      (W : Wrapper)
      → Balanced u 0 f W
      → Owes u (req_bit (find u W.wraps)) (is_held (find u W.wraps)) (quiet_log W.ctx)
  Balanced-Owes W b = record { total = sym b.req; there = sym b.held }

  -- When libubus is done, its calls are handled.
  pub handled-Balanced :
      (W : Wrapper) (c : Context)
      → Balanced u 0 f W
      → Owes u (req_bit (find u W.wraps)) (is_held (find u W.wraps)) c
      → Balanced u 0 f (on_calls format c.log (record W { ctx = c }))
  handled-Balanced W c b o =
      on_calls-Balanced u f format c.log 0 (record W { ctx = c })
        (record {
          req = omega (arith, o.total);
          ret = b.ret;
          sum = b.sum;
          one = b.one;
          held = sym o.there;
        })

  pub receive-Balanced :
      (fuel : ℕ) (ms : List (Incoming × Option ℕ)) (W : Wrapper)
      → Balanced u 0 f W
      → Ensures (Balanced u 0 f) (receive format fuel ms W)
  unfolding receive
  receive-Balanced fuel [] W b = ensured b
  receive-Balanced fuel ((m, fd) ∷ ms) W b =
      >>=-Ensures (process_req_msg-Owes u _ _ fuel m fd (quiet_log W.ctx) (Balanced-Owes W b))
        λ c o.
          receive-Balanced fuel ms (on_calls format c.log (record W { ctx = c }))
            (handled-Balanced W c b o)

  pub wrap_context-Balanced :
      (v : ℕ) (W : Wrapper) → Balanced u 0 f W → Balanced u 0 f (wrap_context v W)
  unfolding wrap_context
  wrap_context-Balanced v W b = elim (Option-cases (find v W.wraps)) [
    | inr (w, e) ↦ rw (e, wrap_context) b
    | inl e ↦
        let here = find-cons u v blank W.wraps in
        let there = find-cons u v blank_request W.ctx.memory in
        rw (e, wrap_context)
          (rw (here, there)
            (elim (Bool-cases (v == u)) [
              | inr ne ↦ rw ne b
              | inl eq ↦
                  let same : v ≡ u = ground arith in
                  let nothing : find u W.wraps ≡ none = ap (λ k. find k W.wraps) (sym same) ∙ e in
                  let flags = ap req_bit nothing in
                  let returned = ap ret_bit nothing in
                  rw eq (record {
                    req = omega arith;
                    ret = b.ret ∙ returned;
                    sum = omega (arith, b.sum, flags, returned);
                    one = b.one;
                    held = refl;
                  })
            ]))
  ]

  -- A block is given its index.
  pub index-Balanced :
      (v index : ℕ) (x : Bool) (W : Wrapper)
      → Balanced u 0 f W
      → Balanced u 0 f
          (record W { wraps = update v (λ w. record w { index = index }) W.wraps; connected = x })
  index-Balanced v index x W b =
      Bits-update u v _ W.wraps _ _ 0 f _
        (λ e. map-Bits _ (find u W.wraps) _ _ 0 f _ (λ w. refl) (λ w. refl) b) (λ e. b)

  -- The block goes to the list of returns.
  pub invoke_fail-Balanced :
      (v : ℕ) (W : Wrapper)
      → ((v == u) ≡ true → f ≡ 0)
      → ((v == u) ≡ true → is_held (find u W.wraps) ≡ true)
      → Balanced u 0 f W
      → (g : ℕ) × Balanced u 0 g (invoke_fail v W).1
  unfolding invoke_fail
  invoke_fail-Balanced v W idle held b =
      let n = count-append u v W.returns in
      elim (Bool-cases (v == u)) [
        | inr ne ↦ (
          f,
          Bits-update u v _ W.wraps _ _ 0 f _ (λ e. absurd (ground arith))
              (λ e. Bits-count (ground (arith, n)) b),
        )
        | inl y ↦ (
          1,
          Bits-update u v _ W.wraps _ _ 0 1 _
              (λ e. Bits-count (ground (arith, n)) (
                failed-Bits (find u W.wraps) _ (count u W.returns) _ (held y)
                  (subst (λ s. Balanced u 0 s W) (idle y) b)))
              (λ e. absurd (ground arith)),
        )
      ]
