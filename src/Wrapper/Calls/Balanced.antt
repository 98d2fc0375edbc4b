-- ===== src/Wrapper/Calls/Balanced.antt =====
-- What the flags of a call say about the list of returns and about libubus
-- (java_ubus_example/jni/ubus_wrapper.c).
use mathlib.Core.Option
use mathlib.Core.Path.{subst}
use libubus_jni.Prelude.{
  ℕ, ◌+◌, ◌≤◌, ◌≡◌, refl, sym, ap, ◌∙◌, arith, Bool, true, false, List, [], ◌∷◌, ◌++◌, Option, none,
  some, if◌then◌else◌, ◌==◌, Bool-cases, inl, inr,
}
use libubus_jni.Libubox.Text.{CString}
use libubus_jni.Libubox.Tree.{find, update, id_ord}
use libubus_jni.Libubox.Tree.Find.{find-update_self, find-update_ne}
use libubus_jni.Ubusd.Message.{Blob}
use libubus_jni.Libubus.Request.{Call, complete_call, data_call}
use libubus_jni.Libubus.Request.Due.{armed, completed, is_there}
use libubus_jni.Wrapper.Calls.{
  Wrap, Wrapper, returning, sync_req_cb, recv_cb_json_out, on_call, on_calls,
}

abbrev pub bit : Bool → ℕ
bit b = if b then 1 else 0

abbrev pub req_bit : Option Wrap → ℕ
req_bit none = 0
req_bit (some w) = bit w.req_pending

abbrev pub ret_bit : Option Wrap → ℕ
ret_bit none = 0
ret_bit (some w) = bit w.ret_pending

-- How often a block stands on a list.
abbrev pub count : ℕ → List ℕ → ℕ
count u [] = 0
count u (r ∷ rs) = (if r == u then 1 else 0) + count u rs

pub count-append :
    (u r : ℕ) (rs : List ℕ) → count u (rs ++ (r ∷ [])) ≡ count u rs + count u (r ∷ [])
count-append u r [] = omega arith
count-append u r (x ∷ xs) = omega (arith, count-append u r xs)

abbrev pub is_held : Option Wrap → Bool
is_held none = false
is_held (some w) = true

-- The flag FLAG_REQ_PENDING counts the calls of `complete_cb` to come: those of libubus, and `k` that
-- it has made and that have not been handled here. FLAG_RET_PENDING counts how often the block
-- stands on the list of returns. So many flags are set, one at most, and
-- the request is in the memory of libubus exactly as long as the block is there.
pub record Bits (o : Option Wrap) (to_come returned k flags : ℕ) (here : Bool) : Type 0 where
  pub req : req_bit o ≡ to_come + k
  pub ret : returned ≡ ret_bit o
  pub sum : req_bit o + ret_bit o ≡ flags
  pub one : flags ≤ 1
  pub held : is_held o ≡ here

abbrev pub Balanced : ℕ → ℕ → ℕ → Wrapper → Type 0
Balanced u k s W =
    Bits (find u W.wraps) (armed (find u W.ctx.memory)) (count u W.returns) k s
      (is_there (find u W.ctx.memory))

-- A write to a block, as the bits see it.
pub Bits-update :
    (u r : ℕ) (f : Wrap → Wrap) (t : List (ℕ × Wrap)) (a n k s : ℕ) (h : Bool)
    → ((r == u) ≡ true → Bits (Option.map f (find u t)) a n k s h)
    → ((r == u) ≡ false → Bits (find u t) a n k s h)
    → Bits (find u (update r f t)) a n k s h
Bits-update u r f t a n k s h same other = elim (Bool-cases (r == u)) [
  | inl e ↦
      let eq : r ≡ u = ground arith in
      rw eq (subst (λ o. Bits o a n k s h) (sym (find-update_self u f t)) (same e))
  | inr ne ↦ subst (λ o. Bits o a n k s h) (sym (find-update_ne r u f t (ground arith))) (other ne)
]

-- What each function does to the bits of its block.
completed-Bits :
    (ret : ℕ) (o : Option Wrap) (a n k s : ℕ) (h : Bool)
    → Bits o a n (1 + k) s h
    → Bits
        (Option.map (λ w. record (returning (some ret) w) { req_pending = false }) o)
        a
        (n + 1)
        k
        s
        h
completed-Bits ret none a n k s h b = absurd (omega (arith, b.req))
completed-Bits ret (some w) a n k s h b = record {
  req = ground (arith, b.req, b.sum, b.one);
  ret = ground (arith, b.req, b.ret, b.sum, b.one);
  sum = ground (arith, b.req, b.sum, b.one);
  one = b.one;
  held = b.held;
}

pub map-Bits :
    (f : Wrap → Wrap) (o : Option Wrap) (a n k s : ℕ) (h : Bool)
    → ((w : Wrap) → (f w).req_pending ≡ w.req_pending)
    → ((w : Wrap) → (f w).ret_pending ≡ w.ret_pending)
    → Bits o a n k s h
    → Bits (Option.map f o) a n k s h
map-Bits f none a n k s h p q b = b
map-Bits f (some w) a n k s h p q b =
    let e = ap bit (p w) in
    let g = ap bit (q w) in
    record {
      req = e ∙ b.req;
      ret = b.ret ∙ sym g;
      sum = omega (arith, e, g, b.sum);
      one = b.one;
      held = b.held;
    }

pub Bits-count :
    {o : Option Wrap} {a n m k s : ℕ} {h : Bool} → n ≡ m → Bits o a n k s h → Bits o a m k s h
Bits-count {o} {a} {n} {m} {k} {s} {h} e b = subst (λ x. Bits o a x k s h) e b

pub Bits-to_come :
    {o : Option Wrap} {a n k j s : ℕ} {h : Bool} → k ≡ j → Bits o a n k s h → Bits o a n j s h
Bits-to_come {o} {a} {n} {k} {j} {s} {h} e b = subst (λ x. Bits o a n x s h) e b

completed-cons :
    (u : ℕ) (x : Call) (xs : List Call)
    → completed u (x ∷ xs) ≡ completed u (x ∷ []) + completed u xs
completed-cons u (complete_call r s) xs = omega arith
completed-cons u _ xs = omega arith

module _ (u f : ℕ) (format : Option Blob → CString) where
  sync_req_cb-Balanced :
      (r s k : ℕ) (W : Wrapper)
      → Balanced u ((if r == u then 1 else 0) + k) f W
      → Balanced u k f (sync_req_cb r s W)
  unfolding sync_req_cb
  sync_req_cb-Balanced r s k W b =
      let a = armed (find u W.ctx.memory) in
      let h = is_there (find u W.ctx.memory) in
      let n = count-append u r W.returns in
      Bits-update u r _ W.wraps a (count u (W.returns ++ (r ∷ []))) k f h
        (λ e. Bits-count (ground (arith, n)) (
          completed-Bits s (find u W.wraps) a (count u W.returns) k f h (
            subst
              (λ (x : Bool).
                Bits (find u W.wraps) a (count u W.returns) ((if x then 1 else 0) + k) f h)
              e b)))
        (λ e. Bits-count (ground (arith, n)) (record {
          req = ground (arith, b.req);
          ret = b.ret;
          sum = b.sum;
          one = b.one;
          held = b.held;
        }))

  on_call-Balanced :
      (x : Call) (k : ℕ) (W : Wrapper)
      → Balanced u (completed u (x ∷ []) + k) f W
      → Balanced u k f (on_call format x W)
  unfolding recv_cb_json_out
  on_call-Balanced (complete_call r s) k W b =
      sync_req_cb-Balanced r s k W (Bits-to_come (omega arith) b)
  on_call-Balanced (data_call r m) k W b =
      let b1 = Bits-to_come {k = 0 + k} {j = k} (omega arith) b in
      Bits-update u r _ W.wraps _ _ k f _
        (λ e. map-Bits _ (find u W.wraps) _ _ k f _ (λ w. refl) (λ w. refl) b1) (λ e. b1)
  on_call-Balanced _ k W b = Bits-to_come (omega arith) b

  pub on_calls-Balanced :
      (xs : List Call) (k : ℕ) (W : Wrapper)
      → Balanced u (completed u xs + k) f W
      → Balanced u k f (on_calls format xs W)
  unfolding on_calls
  on_calls-Balanced [] k W b = Bits-to_come (omega arith) b
  on_calls-Balanced (x ∷ xs) k W b = on_call-Balanced x k (on_calls format xs W) (
      on_calls-Balanced xs (completed u (x ∷ []) + k) W
        (Bits-to_come (omega (arith, completed-cons u x xs)) b))
