-- ===== src/Wrapper/Types/Described.antt =====
-- The type that a JSON text describes, and how much room it takes
-- (java_ubus_example/jni/ubus_wrapper.c).
use libubus_jni.Prelude.{ℕ, ◌+◌, ◌*◌, ◌≡◌, refl, ap, arith, List, [], ◌∷◌, some, length}
use libubus_jni.Libubox.Text.{CString}
use libubus_jni.Ubusd.Message.{Blob}
use libubus_jni.Wrapper.Outcome.{ok}
use libubus_jni.Wrapper.Types.{
  Json, Sizes, Info, add_string, count_params, count_methods, get_type_info,
}

-- A parameter is a name and the number of a type, a method a name and its parameters.
abbrev pub Param : Type 0
Param = CString × ℕ

abbrev pub Method : Type 0
Method = CString × List Param

-- These attributes are these parameters, all of whose fields are there.
pub data ParamsOf (lib : Json) : List Blob → List Param → Type 0 where
  no_params : ParamsOf lib [] []
  param :
      {b : Blob} {bs : List Blob} {name : CString} {ty : ℕ} {ps : List Param}
      → lib.params_fields b ≡ some (some name, some ty)
      → ParamsOf lib bs ps
      → ParamsOf lib (b ∷ bs) ((name, ty) ∷ ps)

pub data MethodsOf (lib : Json) : List Blob → List Method → Type 0 where
  no_methods : MethodsOf lib [] []
  method :
      {b : Blob} {bs params : List Blob} {name : CString} {ps : List Param} {ms : List Method}
      → lib.method_fields b ≡ some (some name, some params)
      → ParamsOf lib params ps
      → MethodsOf lib bs ms
      → MethodsOf lib (b ∷ bs) ((name, ps) ∷ ms)

pub record Describes (lib : Json) (type_json name : CString) (ms : List Method) : Type 0 where
  pub buf : Blob
  pub items : List Blob
  pub loaded : lib.load type_json ≡ some buf
  pub fields : lib.type_fields buf ≡ some (some name, some items)
  pub methods : MethodsOf lib items ms

-- The bytes of the strings, zeros included, and the number of parameters.
abbrev pub params_text : List Param → ℕ
params_text [] = 0
params_text ((name, ty) ∷ ps) = length name + 1 + params_text ps

abbrev pub methods_text : List Method → ℕ
methods_text [] = 0
methods_text ((name, ps) ∷ ms) = length name + 1 + params_text ps + methods_text ms

abbrev pub all_params : List Method → ℕ
all_params [] = 0
all_params ((name, ps) ∷ ms) = length ps + all_params ms

-- The room that the type takes in one block.
abbrev pub size_of : Sizes → CString → List Method → ℕ
size_of S name ms =
    S.object_type
    + length ms * S.method
    + all_params ms * S.policy
    + (length name + 1)
    + methods_text ms

-- What counting adds.
record Counted (i i1 : Info) (new_methods new_policys new_text : ℕ) : Type 0 where
  methods : i1.n_methods ≡ i.n_methods + new_methods
  policys : i1.n_policys ≡ i.n_policys + new_policys
  text : i1.n_strings + i1.n_strbyte ≡ i.n_strings + i.n_strbyte + new_text

count_params-Counted :
    (lib : Json) (i : Info) {bs : List Blob} {ps : List Param}
    → ParamsOf lib bs ps
    → (i1 : Info) × (count_params lib bs i ≡ ok i1) × Counted i i1 0 (length ps) (params_text ps)
unfolding count_params
count_params-Counted lib i no_params =
    (i, refl, record { methods = omega arith; policys = omega arith; text = omega arith })
count_params-Counted lib i (param {name = name} e p) =
    let i0 : Info = record (add_string name i) { n_policys = i.n_policys + 1 } in
    let (i1, r, c) = count_params-Counted lib i0 p in
    (
      i1,
      rw (e, count_params) r,
      record {
        methods = omega (arith, c.methods);
        policys = omega (arith, c.policys);
        text = omega (arith, c.text);
      },
    )

count_methods-Counted :
    (lib : Json) (i : Info) {bs : List Blob} {ms : List Method}
    → MethodsOf lib bs ms
    → (i1 : Info) × (count_methods lib bs i ≡ ok i1)
      × Counted i i1 (length ms) (all_params ms) (methods_text ms)
unfolding count_methods
count_methods-Counted lib i no_methods =
    (i, refl, record { methods = omega arith; policys = omega arith; text = omega arith })
count_methods-Counted lib i (method {name = name} e p q) =
    let (i1, r, c) = count_params-Counted lib (add_string name i) p in
    let i0 : Info = record i1 { n_methods = i1.n_methods + 1 } in
    let (i2, s, d) = count_methods-Counted lib i0 q in
    (
      i2,
      rw (e, count_methods) (rw r s),
      record {
        methods = omega (arith, c.methods, d.methods);
        policys = omega (arith, c.policys, d.policys);
        text = omega (arith, c.text, d.text);
      },
    )

-- The size is that of the rows and of the strings.
pub get_type_info_lem :
    (lib : Json) (S : Sizes) (type_json name : CString) (ms : List Method)
    → Describes lib type_json name ms
    → (i : Info) × (get_type_info lib S type_json ≡ ok (size_of S name ms, i))
      × (i.n_methods ≡ length ms)
      × (i.n_policys ≡ all_params ms)
unfolding get_type_info
get_type_info_lem lib S type_json name ms d =
    let i0 : Info =
      add_string name (record { n_methods = 0; n_policys = 0; n_strings = 0; n_strbyte = 0 }) in
    let (i, r, c) = count_methods-Counted lib i0 d.methods in
    let m : i.n_methods ≡ length ms = omega (arith, c.methods) in
    let p : i.n_policys ≡ all_params ms = omega (arith, c.policys) in
    (
      i,
      rw (d.loaded, get_type_info)
          (rw (d.fields) (rw r (rw (m, p) (ap (λ (n : ℕ). ok (n, i)) (omega (arith, c.text)))))),
      m,
      p,
    )
