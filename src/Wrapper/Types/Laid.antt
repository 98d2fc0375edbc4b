-- ===== src/Wrapper/Types/Laid.antt =====
-- The second reading of the JSON fits the size that the first one found
-- (java_ubus_example/jni/ubus_wrapper.c).
use mathlib.Core.Path.{subst}
use native.Mathlib.Nat.{suc-mul, zero-mul}
use libubus_jni.Prelude.{
  ℕ, ◌+◌, ◌*◌, ◌<◌, ◌≤◌, ◌≡◌, refl, ap, ◌∙◌, arith, List, [], ◌∷◌, ◌++◌, some, length, lt→ltb,
}
use libubus_jni.Libubox.Text.{CString}
use libubus_jni.Ubusd.Message.{Blob}
use libubus_jni.Wrapper.Outcome.{ok}
use libubus_jni.Wrapper.Types.{Json, Sizes, PolicyRow, MethodRow, Block, wrap_string, parse_params}
use libubus_jni.Wrapper.Types.Packed.{at, at-append, at-append_new, Packed, Packed-append}
use libubus_jni.Wrapper.Types.Described.{Param, ParamsOf, no_params, param, params_text}
use libubus_jni.Wrapper.Types.Held.{Extends, Extends-refl, Extends-trans, HasParams}

-- A string takes its bytes and the zero.
abbrev pub text_size : CString → ℕ
text_size s = length s + 1

-- Each of the three parts of a block is filled from its start to its pointer.
pub record Tidy (S : Sizes) (bottom top : ℕ) (m : Block) : Type 0 where
  pub texts : Packed text_size top m.texts m.strings
  pub policies : Packed (λ (r : PolicyRow). S.policy) bottom m.policies m.policy
  pub methods : Packed (λ (r : MethodRow). S.method) S.object_type m.methods m.method

-- The block with one more string, parameter or method.
abbrev pub with_text : CString → Block → Block
with_text s m = record m {
  texts = m.texts ++ ((m.strings, s) ∷ []);
  strings = m.strings + length s + 1;
}

abbrev with_policy : Sizes → PolicyRow → Block → Block
with_policy S r m = record m {
  policies = m.policies ++ ((m.policy, r) ∷ []);
  policy = m.policy + S.policy;
}

abbrev pub with_method : Sizes → MethodRow → Block → Block
with_method S r m = record m {
  methods = m.methods ++ ((m.method, r) ∷ []);
  method = m.method + S.method;
}

pub wrap_string_lem :
    (limit : ℕ) (s : CString) (m : Block)
    → m.strings + length s < limit
    → wrap_string limit s m ≡ ok (m.strings, with_text s m)
unfolding wrap_string
wrap_string_lem limit s m l = rw (lt→ltb _ _ l) refl

pub Extends-with_text : (s : CString) (m : Block) → Extends m (with_text s m)
Extends-with_text s m = record {
  texts = λ k v h. at-append k m.texts _ v h;
  policies = λ k v h. h;
  methods = λ k v h. h;
}

Extends-with_policy : (S : Sizes) (r : PolicyRow) (m : Block) → Extends m (with_policy S r m)
Extends-with_policy S r m = record {
  texts = λ k v h. h;
  policies = λ k v h. at-append k m.policies _ v h;
  methods = λ k v h. h;
}

pub Extends-with_method : (S : Sizes) (r : MethodRow) (m : Block) → Extends m (with_method S r m)
Extends-with_method S r m = record {
  texts = λ k v h. h;
  policies = λ k v h. h;
  methods = λ k v h. at-append k m.methods _ v h;
}

module _ (S : Sizes) (bottom top : ℕ) (m : Block) (t : Tidy S bottom top m) where
  pub with_text-Tidy : (s : CString) → Tidy S bottom top (with_text s m)
  with_text-Tidy s = record {
    texts =
        subst (λ (b : ℕ). Packed text_size top (m.texts ++ ((m.strings, s) ∷ [])) b) (omega arith)
          (Packed-append text_size top m.strings m.texts s t.texts);
    policies = t.policies;
    methods = t.methods;
  }

  pub with_text-there : (s : CString) → at m.strings (with_text s m).texts ≡ some s
  with_text-there s = at-append_new text_size top m.strings m.texts s (λ w. omega arith) t.texts

  with_policy-Tidy : (r : PolicyRow) → Tidy S bottom top (with_policy S r m)
  with_policy-Tidy r = record {
    texts = t.texts;
    policies = Packed-append _ bottom m.policy m.policies r t.policies;
    methods = t.methods;
  }

  with_policy-there :
      (r : PolicyRow) → 0 < S.policy → at m.policy (with_policy S r m).policies ≡ some r
  with_policy-there r pos =
      at-append_new (λ (x : PolicyRow). S.policy) bottom m.policy m.policies r (λ x. pos) t.policies

  pub with_method-Tidy : (r : MethodRow) → Tidy S bottom top (with_method S r m)
  with_method-Tidy r = record {
    texts = t.texts;
    policies = t.policies;
    methods = Packed-append _ S.object_type m.method m.methods r t.methods;
  }

  pub with_method-there :
      (r : MethodRow) → 0 < S.method → at m.method (with_method S r m).methods ≡ some r
  with_method-there r pos =
      at-append_new (λ (x : MethodRow). S.method) S.object_type m.method m.methods r (λ x. pos)
        t.methods

module _ (lib : Json) (S : Sizes) (limit : ℕ) where
  parse_params-step :
      (b : Blob) (bs : List Blob) (name : CString) (ty n : ℕ) (m : Block)
      → lib.params_fields b ≡ some (some name, some ty)
      → m.strings + length name < limit
      → m.policy + S.policy < limit
      → parse_params lib S limit (b ∷ bs) n m
        ≡ parse_params lib S limit bs
            (n + 1)
            (with_policy S (record { name = m.strings; ty = ty }) (with_text name m))
  unfolding parse_params
  parse_params-step b bs name ty n m e l k =
      rw (e, parse_params) (rw (wrap_string_lem limit name m l) (rw (lt→ltb _ _ k) refl))

  -- Parameters are put into the block, with their names.
  pub record Added (bottom top n : ℕ) (bs : List Blob) (ps : List Param) (m : Block) : Type 0 where
    pub after : Block
    pub gives : parse_params lib S limit bs n m ≡ ok (n + length ps, after)
    pub tidy : Tidy S bottom top after
    pub extends : Extends m after
    pub there : HasParams S after m.policy ps
    pub strings : after.strings ≡ m.strings + params_text ps
    pub policy : after.policy ≡ m.policy + length ps * S.policy
    pub method : after.method ≡ m.method

  pub parse_params-Added :
      (pos : 0 < S.policy) (bottom top n : ℕ) (m : Block) {bs : List Blob} {ps : List Param}
      → ParamsOf lib bs ps
      → Tidy S bottom top m
      → m.strings + params_text ps ≤ limit
      → m.policy + length ps * S.policy ≤ top
      → top < limit
      → Added bottom top n bs ps m
  unfolding parse_params
  parse_params-Added pos bottom top n m no_params t fs fp ft = record {
    after = m;
    gives = ap (λ (k : ℕ). ok (k, m)) (omega arith);
    tidy = t;
    extends = Extends-refl m;
    there = tt;
    strings = omega arith;
    policy = omega (arith, zero-mul S.policy);
    method = refl;
  }
  parse_params-Added pos bottom top n m
        (param {b = b} {bs = bs} {name = name} {ty = ty} {ps = ps} e p) t fs fp ft =
      let r : PolicyRow = record { name = m.strings; ty = ty } in
      let m1 : Block = with_text name m in
      let t1 = with_text-Tidy S bottom top m t name in
      let more = suc-mul (length ps) S.policy in
      let a =
        parse_params-Added pos bottom top (n + 1) (with_policy S r m1) p
          (with_policy-Tidy S bottom top m1 t1 r) (omega arith) (omega arith) ft in
      let later = Extends-trans (Extends-with_policy S r m1) a.extends in
      record {
        after = a.after;
        gives =
            parse_params-step b bs name ty n m e (omega arith) (omega arith)
            ∙ a.gives
            ∙ ap (λ (k : ℕ). ok (k, a.after)) (omega arith);
        tidy = a.tidy;
        extends = Extends-trans (Extends-with_text name m) later;
        there = (
          (
            m.strings,
            a.extends.policies m.policy r (with_policy-there S bottom top m1 t1 r pos),
            later.texts m.strings name (with_text-there S bottom top m t name),
          ),
          a.there,
        );
        strings = omega (arith, a.strings);
        policy = omega (arith, a.policy);
        method = a.method;
      }
