-- ===== src/Libubus/Io/Sending/Whole.antt =====
-- A message is written whole, whatever pieces the socket takes (ubus/libubus-io.c).
use mathlib.Core.List.{append_assoc, append-nil}
use libubus_jni.Prelude.{
  ℕ, suc, zero, ◌+◌, ◌-◌, ◌≤◌, ◌<◌, ◌≡◌, refl, sym, ap, ◌∙◌, arith, List, [], ◌∷◌, ◌++◌, Option,
  take, drop, length, ltb, leb, length-append, length-drop, take-all, ◌≢◌, take-append-drop,
  drop-append_ge, drop-append_le, Bool-cases, inl, inr,
}
use libubus_jni.Libubus.Io.Sending.{
  SendOutcome, takes, again, broken, Wire, Written, whole, failed, waits, concat, advance, taken_of,
  writev_retry,
}

advance-drop : (k : ℕ) (iov : List (List ℕ)) → concat (advance k iov) ≡ drop k (concat iov)
unfolding advance
advance-drop zero [] = refl
advance-drop (suc k) [] = refl
advance-drop k (v ∷ vs) = elim (Bool-cases (leb (length v) k)) [
  | inl le ↦
      rw le (advance-drop (k - length v) vs ∙ sym (drop-append_ge k v (concat vs) (ground arith)))
  | inr gt ↦ rw gt (sym (drop-append_le k v (concat vs) (ground arith)))
]

-- The loop stops only behind the last byte.
advance-ends : (k : ℕ) (iov : List (List ℕ)) → advance k iov ≡ [] → length (concat iov) ≤ k
unfolding advance
advance-ends k [] h = omega arith
advance-ends k (v ∷ vs) h =
    ground (arith, length-append v (concat vs), advance-ends (k - length v) vs)

-- Of the bytes `left` is not written; on success that is nothing, and the result is the total.
abbrev pub IsFinal : List ℕ → ℕ → Written → Type 0
IsFinal left total (whole n) = (left ≡ []) × (n ≡ total)
IsFinal left total failed = Unit
IsFinal left total waits = Unit

advance-all : (k : ℕ) (iov : List (List ℕ)) → length (concat iov) ≤ k → advance k iov ≡ []
unfolding advance
advance-all k [] h = refl
advance-all k (v ∷ vs) h =
    ground (arith, length-append v (concat vs), advance-all (k - length v) vs)

-- Where the loop does not stop there is a byte left, and one fewer for each that was taken.
pub advance-fewer :
    (k : ℕ) (iov : List (List ℕ))
    → advance k iov ≢ []
    → (k < length (concat iov)) × (length (concat (advance k iov)) ≡ length (concat iov) - k)
advance-fewer k iov ne = (
  elim (Bool-cases (ltb k (length (concat iov)))) [
    | inl lt ↦ ground arith
    | inr ge ↦ absurd (ne (advance-all k iov (ground arith)))
  ],
  ap length (advance-drop k iov) ∙ length-drop k (concat iov),
)

-- What a writer of the bytes `b` has done, when `len` were written before.
pub record Writes (b : List ℕ) (len : ℕ) (w : Wire) (r : Written × Wire) : Type 0 where
  pub left : List ℕ
  pub stream : r.1.bytes ++ left ≡ w.bytes ++ b
  pub result : IsFinal left (len + length b) r.0

pub taken_of-le : (n : ℕ) (b : List ℕ) → taken_of n b ≤ length b
taken_of-le n b = ground arith

pub taken_of-pos : (n : ℕ) (b : List ℕ) → 0 < n → 0 < length b → 0 < taken_of n b
taken_of-pos n b h l = ground arith

-- One call of `sendmsg`, and what the code does behind it.
module _ (iov : List (List ℕ)) (n len : ℕ) (w w1 : Wire) where
  abbrev cur : ℕ
  cur = taken_of n (concat iov)

  last-Writes :
      w1.bytes ≡ w.bytes ++ take cur (concat iov)
      → advance cur iov ≡ []
      → Writes (concat iov) len w (whole (len + cur), w1)
  last-Writes e h =
      let all = advance-ends cur iov h in
      let le = taken_of-le n (concat iov) in
      record {
        left = [];
        stream = append-nil w1.bytes ∙ e ∙ ap (◌++◌ w.bytes) (take-all cur (concat iov) all);
        result = (refl, omega arith);
      }

  more-Writes :
      (r : Written × Wire)
      → w1.bytes ≡ w.bytes ++ take cur (concat iov)
      → Writes (concat (advance cur iov)) (len + cur) w1 r
      → Writes (concat iov) len w r
  more-Writes r e v =
      let rest = advance-drop cur iov in
      let le = taken_of-le n (concat iov) in
      let sum : (len + cur) + length (concat (advance cur iov)) ≡ len + length (concat iov) =
        omega (arith, ap length rest, length-drop cur (concat iov)) in
      record {
        left = v.left;
        stream =
            v.stream
            ∙ ap (λ b. b ++ concat (advance cur iov)) e
            ∙ append_assoc w.bytes (take cur (concat iov)) (concat (advance cur iov))
            ∙ ap (λ b. w.bytes ++ (take cur (concat iov) ++ b)) rest
            ∙ ap (◌++◌ w.bytes) (take-append-drop cur (concat iov));
        result = rw (← sum) v.result;
      }

  step-Writes :
      (later : Written × Wire) (vs : List (List ℕ))
      → w1.bytes ≡ w.bytes ++ take cur (concat iov)
      → advance cur iov ≡ vs
      → Writes (concat (advance cur iov)) (len + cur) w1 later
      → Writes
          (concat iov)
          len
          w
          (elim vs as (λ _. Written × Wire) [ [] ↦ (whole (len + cur), w1) | ◌∷◌ _ _ ↦ later ])
  step-Writes later [] e h v = last-Writes e h
  step-Writes later (x ∷ xs) e h v = more-Writes later e v

pub writev_retry-Writes :
    (os : List SendOutcome) (iov : List (List ℕ)) (fd : Option ℕ) (len : ℕ) (w : Wire)
    → Writes (concat iov) len w (writev_retry os iov fd len w)
unfolding writev_retry
writev_retry-Writes [] iov fd len w = record { left = concat iov; stream = refl; result = tt }
writev_retry-Writes (again ∷ os) iov fd len w = writev_retry-Writes os iov fd len w
writev_retry-Writes (broken ∷ os) iov fd len w = record {
  left = concat iov;
  stream = refl;
  result = tt;
}
writev_retry-Writes (takes n ∷ os) iov fd len w =
    step-Writes iov n len w _ _ (advance (taken_of n (concat iov)) iov) refl refl
      (writev_retry-Writes os (advance (taken_of n (concat iov)) iov) _ _ _)
