-- ===== src/Wrapper/Calls/Order.antt =====
-- Calls are handed out in the order in which they ended (java_ubus_example/jni/ubus_wrapper.c).
use mathlib.Core.Option
use libubus_jni.Prelude.{
  ℕ, zero, suc, ◌≡◌, ◌≢◌, refl, ap, ◌∙◌, arith, true, false, List, [], ◌∷◌, Option, none, some,
  ◌>>=◌, ◌==◌, take, drop, map, Bool-cases, inl, inr,
}
use libubus_jni.Libubox.Text.{CString}
use libubus_jni.Libubox.Tree.{find, update, id_ord}
use libubus_jni.Libubox.Tree.Find.{find-update_self, find-update_ne}
use libubus_jni.Ubusd.Message.{Blob}
use libubus_jni.Libubus.Request.{Incoming}
use libubus_jni.Wrapper.Calls.{Wrap, Wrapper, receive, take_returns, fetch_return}
use libubus_jni.Wrapper.Calls.Balanced.{count, ret_bit, is_held}
use libubus_jni.Wrapper.Calls.Started.{held-update}
use libubus_jni.Wrapper.Calls.Reached.{Reach, Reach-Agree, Agree}

abbrev pub index_of : Option Wrap → ℕ
index_of none = 0
index_of (some w) = w.index

-- Taking the flag off leaves each index.
index_of-clear :
    (u v : ℕ) (t : List (ℕ × Wrap))
    → index_of (find u (update v (λ x. record x { ret_pending = false }) t)) ≡ index_of (find u t)
index_of-clear u v t = elim (Bool-cases (u == v)) [
  | inl e ↦
      let eq : u ≡ v = ground arith in
      rw eq (ap index_of (find-update_self v _ t) ∙ cleared (find v t))
  | inr n ↦ ap index_of (find-update_ne v u _ t (ground arith))
]
  where
    cleared :
        (o : Option Wrap)
        → index_of (Option.map {A = Wrap} (λ x. record x { ret_pending = false }) o) ≡ index_of o
    cleared none = refl
    cleared (some w) = refl

map-index_of :
    (v : ℕ) (t : List (ℕ × Wrap)) (us : List ℕ)
    → map (λ u. index_of (find u (update v (λ x. record x { ret_pending = false }) t))) us
      ≡ map (λ u. index_of (find u t)) us
map-index_of v t [] = refl
map-index_of v t (u ∷ us) = cc (index_of-clear u v t, map-index_of v t us)

held_some : (o : Option Wrap) → is_held o ≡ true → (w : Wrap) × (o ≡ some w)
held_some none h = cc
held_some (some w) h = (w, refl)

take_returns-Order :
    (room : ℕ) (us : List ℕ) (W : Wrapper)
    → ((u : ℕ) → count u us ≢ 0 → is_held (find u W.wraps) ≡ true)
    → (W1 : Wrapper) × (take_returns room us W
        ≡ some (map (λ u. index_of (find u W.wraps)) (take room us), W1))
      × (W1.returns ≡ drop room us)
      × (W1.ctx ≡ W.ctx)
unfolding take_returns
take_returns-Order zero us W held = (_, refl, refl, refl)
take_returns-Order (suc room) [] W held = (_, refl, refl, refl)
take_returns-Order (suc room) (v ∷ us) W held =
    let clear : Wrap → Wrap = λ x. record x { ret_pending = false } in
    let (w, e) = held_some (find v W.wraps) (held v (λ z. absurd (ground arith))) in
    let (W1, run, rest, same) =
      take_returns-Order room us (record W { wraps = update v clear W.wraps })
        (λ u n. held-update u v clear W.wraps ∙ held u (λ z. n (omega (arith, z)))) in
    (
      W1,
      rw (e, run) (ap (λ is. some (w.index ∷ is, W1)) (map-index_of v W.wraps (take room us))),
      rest,
      same,
    )

module _ (format : Option Blob → CString) where
  counted_held :
      (u : ℕ) (W : Wrapper)
      → Agree format u W
      → count u W.returns ≢ 0
      → is_held (find u W.wraps) ≡ true
  counted_held u W a n = held_ret (find u W.wraps) (λ z. n (a.returned ∙ z))
    where
      held_ret : (o : Option Wrap) → ret_bit o ≢ 0 → is_held o ≡ true
      held_ret none h = absurd (h refl)
      held_ret (some w) h = refl

  -- In every state that calls of the wrapper lead to and in which `_ubus_return_reqs` is not
  -- empty, `ubus_wrap_fetch_return` for `size` results gives the indices of the first `size`
  -- contexts on the list, in its order, leaves the rest of the list and does not touch libubus.
  pub fetch_return-Order :
      (fuel size : ℕ) (ms : List (Incoming × Option ℕ)) (W : Wrapper)
      → Reach format W
      → W.returns ≢ []
      → (W1 : Wrapper) × (fetch_return format fuel size ms W
          ≡ some (map (λ u. index_of (find u W.wraps)) (take size W.returns), W1))
        × (W1.returns ≡ drop size W.returns)
        × (W1.ctx ≡ W.ctx)
  unfolding fetch_return
  fetch_return-Order fuel size ms W r waiting =
      let (W1, run, rest, same) =
        take_returns-Order size W.returns W
          (λ u n. counted_held u W (Reach-Agree format u W r) n) in
      (W1, no_poll W.returns waiting ∙ run, rest, same)
    where
      no_poll :
          (us : List ℕ)
          → us ≢ []
          → ((elim us as (λ _. Option Wrapper) [ [] ↦ receive format fuel ms W | _ ↦ some W ])
              >>= λ W1. take_returns size W1.returns W1)
            ≡ take_returns size W.returns W
      no_poll [] h = absurd (h refl)
      no_poll (v ∷ us) h = refl
