-- ===== src/Wrapper/Types/Whole.antt =====
-- The whole type of an object in one block (java_ubus_example/jni/ubus_wrapper.c).
use mathlib.Core.Path.{subst}
use native.Mathlib.Nat.{suc-mul, zero-mul, add-mul}
use libubus_jni.Prelude.{
  ℕ, ◌+◌, ◌*◌, ◌<◌, ◌≤◌, ◌≡◌, refl, sym, ap, ◌∙◌, arith, List, ◌∷◌, some, length, lt→ltb,
}
use libubus_jni.Libubox.Text.{CString}
use libubus_jni.Ubusd.Message.{Blob}
use libubus_jni.Wrapper.Outcome.{ok}
use libubus_jni.Wrapper.Types.{
  Json, Sizes, Info, PolicyRow, MethodRow, TypeRow, Block, get_type_info, parse_params,
  parse_methods, parse_object_type, fresh_block,
}
use libubus_jni.Wrapper.Types.Packed.{at, Packed}
use libubus_jni.Wrapper.Types.Described.{
  Param, Method, MethodsOf, no_methods, method, Describes, methods_text, all_params, size_of,
  get_type_info_lem,
}
use libubus_jni.Wrapper.Types.Held.{
  read_type, read_methods-Has, Extends, Extends-refl, Extends-trans, HasMethods, HasParams-Extends,
}
use libubus_jni.Wrapper.Types.Laid.{
  text_size, Tidy, with_text, with_method, wrap_string_lem, Extends-with_text, Extends-with_method,
  with_text-Tidy, with_text-there, with_method-Tidy, with_method-there, parse_params-Added,
}

module _ (lib : Json) (S : Sizes) (limit : ℕ) where
  parse_methods-step :
      (b : Blob) (bs params : List Blob) (name : CString) (n k : ℕ) (m m2 : Block)
      → lib.method_fields b ≡ some (some name, some params)
      → m.strings + length name < limit
      → parse_params lib S limit params 0 (with_text name m) ≡ ok (k, m2)
      → m2.method + S.method < limit
      → parse_methods lib S limit (b ∷ bs) n m
        ≡ parse_methods lib S limit bs
            (n + 1)
            (with_method S (record { name = m.strings; policy = m.policy; n_policy = k }) m2)
  unfolding parse_methods
  parse_methods-step b bs params name n k m m2 e l p h =
      rw (e, parse_methods) (rw (wrap_string_lem limit name m l) (rw p (rw (lt→ltb _ _ h) refl)))

  -- The row of a method stands where the pointer was, and has the number of its parameters.
  row_there :
      (m m2 after : Block) (ps : List Param)
      → m2.method ≡ m.method
      → at m2.method after.methods
        ≡ some (record { name = m.strings; policy = m.policy; n_policy = 0 + length ps })
      → at m.method after.methods
        ≡ some (record { name = m.strings; policy = m.policy; n_policy = length ps })
  row_there m m2 after ps e h =
      let zero_add : 0 + length ps ≡ length ps = omega arith in
      ap (λ k. at k after.methods) (sym e)
      ∙ h
      ∙ ap (λ k. some (record { name = m.strings; policy = m.policy; n_policy = k })) zero_add

  -- MethodsOf are put into the block, with their names and their parameters.
  record AddedMethods (bottom top n : ℕ) (bs : List Blob) (ms : List Method) (m : Block)
      : Type 0 where
    after : Block
    gives : parse_methods lib S limit bs n m ≡ ok (n + length ms, after)
    tidy : Tidy S bottom top after
    extends : Extends m after
    there : HasMethods S after m.method ms
    strings : after.strings ≡ m.strings + methods_text ms
    policy : after.policy ≡ m.policy + all_params ms * S.policy
    method : after.method ≡ m.method + length ms * S.method

  parse_methods-Added :
      (ppos : 0 < S.policy) (mpos : 0 < S.method) (bottom top n : ℕ) (m : Block) {bs : List Blob}
      {ms : List Method}
      → MethodsOf lib bs ms
      → Tidy S bottom top m
      → m.strings + methods_text ms ≤ limit
      → m.policy + all_params ms * S.policy ≤ top
      → m.method + length ms * S.method ≤ bottom
      → bottom ≤ top
      → top < limit
      → AddedMethods bottom top n bs ms m
  unfolding parse_methods
  parse_methods-Added ppos mpos bottom top n m no_methods t fs fp fm fb ft = record {
    after = m;
    gives = ap (λ (k : ℕ). ok (k, m)) (omega arith);
    tidy = t;
    extends = Extends-refl m;
    there = tt;
    strings = omega arith;
    policy = omega (arith, zero-mul S.policy);
    method = omega (arith, zero-mul S.method);
  }
  parse_methods-Added ppos mpos bottom top n m
        (method {b = b} {bs = bs} {params = params} {name = name} {ps = ps} {ms = ms} e p q) t fs fp
        fm fb ft =
      let split = add-mul (length ps) (all_params ms) S.policy in
      let more = suc-mul (length ms) S.method in
      let own =
        parse_params-Added lib S limit ppos bottom top 0 (with_text name m) p
          (with_text-Tidy S bottom top m t name) (omega arith) (omega (arith, split)) ft in
      let r : MethodRow = record {
        name = m.strings;
        policy = m.policy;
        n_policy = 0 + length ps;
      } in
      let a =
        parse_methods-Added ppos mpos bottom top (n + 1) (with_method S r own.after) q
          (with_method-Tidy S bottom top own.after own.tidy r) (omega (arith, own.strings))
          (omega (arith, own.policy, split)) (omega (arith, own.method, more)) fb ft in
      let later = Extends-trans (Extends-with_method S r own.after) a.extends in
      let all = Extends-trans own.extends later in
      record {
        after = a.after;
        gives =
            parse_methods-step b bs params name n (0 + length ps) m own.after e (omega arith)
              own.gives (omega (arith, own.method, more))
            ∙ a.gives
            ∙ ap (λ (k : ℕ). ok (k, a.after)) (omega arith);
        tidy = a.tidy;
        extends = Extends-trans (Extends-with_text name m) all;
        there = (
          (
            m.strings,
            m.policy,
            row_there m own.after a.after ps own.method (
                a.extends.methods own.after.method r
                  (with_method-there S bottom top own.after own.tidy r mpos)),
            all.texts m.strings name (with_text-there S bottom top m t name),
            HasParams-Extends S own.after a.after m.policy ps later own.there,
          ),
          subst (λ (k : ℕ). HasMethods S a.after (k + S.method) ms) own.method a.there,
        );
        strings = omega (arith, a.strings, own.strings);
        policy = omega (arith, a.policy, own.policy, split);
        method = omega (arith, a.method, own.method, more);
      }

-- Types, methods, parameters and strings fill a block of this size, in this order, with no gap and
-- no overlap.
pub record Fills (S : Sizes) (m : Block) (size : ℕ) : Type 0 where
  pub bottom : ℕ
  pub top : ℕ
  pub methods : Packed (λ (r : MethodRow). S.method) S.object_type m.methods bottom
  pub policies : Packed (λ (r : PolicyRow). S.policy) bottom m.policies top
  pub texts : Packed text_size top m.texts size

-- The new block, and the block with the name of the type.
fresh_block-Tidy :
    (S : Sizes) (i : Info)
    → Tidy S (fresh_block S i).policy (fresh_block S i).strings (fresh_block S i)
unfolding fresh_block
fresh_block-Tidy S i = record { texts = refl; policies = refl; methods = refl }

parse_object_type_lem :
    (lib : Json) (S : Sizes) (type_json name : CString) (ms : List Method) (limit : ℕ)
    (m after : Block) (d : Describes lib type_json name ms)
    → m.strings + length name < limit
    → parse_methods lib S limit d.items 0 (with_text name m) ≡ ok (0 + length ms, after)
    → parse_object_type lib S type_json limit m
      ≡ ok (record { name = m.strings; methods = m.method; n_methods = 0 + length ms }, after)
unfolding parse_object_type
parse_object_type_lem lib S type_json name ms limit m after d l g =
    rw (d.loaded, parse_object_type) (rw d.fields (rw (wrap_string_lem limit name m l) (rw g refl)))

read_type_lem :
    (S : Sizes) (m : Block) (t : TypeRow) (name : CString) (ms : List Method)
    → at t.name m.texts ≡ some name
    → t.n_methods ≡ length ms
    → HasMethods S m t.methods ms
    → read_type S m t ≡ some (name, ms)
unfolding read_type
read_type_lem S m t name ms e n h =
    rw (e, read_type) (rw n (rw (read_methods-Has S m t.methods ms h) refl))

-- For a JSON text that describes a type, a name and methods with their names and the names and
-- types of their parameters, all of which libubox finds, with sizes of a method and of a parameter
-- above 0: `ubus_get_type_info` gives a size, `ubus_parse_object_type` on the block that
-- `ubus_wrap_add_object` makes with this size trips no assertion and gives a type, its methods,
-- parameters and strings fill the block up to this size in this order with no gap and no overlap,
-- and following the pointers of the type gives back the name and the methods.
pub parse_object_type-Fills :
    (lib : Json) (S : Sizes) (type_json name : CString) (ms : List Method)
    → 0 < S.policy
    → 0 < S.method
    → Describes lib type_json name ms
    → (size : ℕ) × (i : Info) × (t : TypeRow) × (m : Block) × (get_type_info lib S type_json
        ≡ ok (size, i))
      × (parse_object_type lib S type_json size (fresh_block S i) ≡ ok (t, m))
      × Fills S m size
      × (read_type S m t ≡ some (name, ms))
unfolding fresh_block
parse_object_type-Fills lib S type_json name ms ppos mpos d =
    let (i, e, nm, np) = get_type_info_lem lib S type_json name ms d in
    let size = size_of S name ms in
    let m0 = fresh_block S i in
    let rows = ap (λ (k : ℕ). k * S.method) nm in
    let params = ap (λ (k : ℕ). k * S.policy) np in
    let t0 = fresh_block-Tidy S i in
    let a =
      parse_methods-Added lib S size ppos mpos m0.policy m0.strings 0 (with_text name m0) d.methods
        (with_text-Tidy S m0.policy m0.strings m0 t0 name) (omega (arith, rows, params))
        (omega (arith, params)) (omega (arith, rows)) (omega arith) (omega (arith, rows, params)) in
    let t : TypeRow = record {
      name = m0.strings;
      methods = m0.method;
      n_methods = 0 + length ms;
    } in
    (
      size,
      i,
      t,
      a.after,
      e,
      parse_object_type_lem lib S type_json name ms size m0 a.after d (omega (arith, rows, params))
          a.gives,
      record {
        bottom = m0.policy;
        top = m0.strings;
        methods =
            subst (Packed (λ (r : MethodRow). S.method) S.object_type a.after.methods)
              (a.method ∙ omega (arith, rows)) a.tidy.methods;
        policies =
            subst (Packed (λ (r : PolicyRow). S.policy) m0.policy a.after.policies)
              (a.policy ∙ omega (arith, params)) a.tidy.policies;
        texts =
            subst (Packed text_size m0.strings a.after.texts)
              (a.strings ∙ omega (arith, rows, params)) a.tidy.texts;
      },
      read_type_lem S a.after t name ms
          (a.extends.texts m0.strings name (with_text-there S m0.policy m0.strings m0 t0 name))
          (omega arith) a.there,
    )
