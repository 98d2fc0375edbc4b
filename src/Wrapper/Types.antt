-- ===== src/Wrapper/Types.antt =====
-- java_ubus_example/jni/ubus_wrapper.c: the type of an object is read from JSON twice, first to know
-- how large it is, then to put it into one block of memory.
pub mod Packed
pub mod Described
pub mod Held
pub mod Laid
pub mod Whole
use libubus_jni.Prelude.{
  ℕ, zero, suc, ◌+◌, ◌*◌, Bool, true, false, List, [], ◌∷◌, ◌++◌, Option, none, some, length, ltb,
  if◌then◌else◌,
}
use libubus_jni.Libubox.Text.{CString}
use libubus_jni.Ubusd.Message.{Blob}
use libubus_jni.Wrapper.Outcome.{
  Outcome, ok, failed, crash, ◌>>=◌, ◌>>◌, assert, follow, or_finalize,
}

-- What libubox makes of a text. `load` is blobmsg_add_json_from_string; the others are blobmsg_parse
-- with `type_policy`, `method_policy` and `params_policy`, where `none` is an error, a field is `none`
-- where it is missing or of another type, and an array is given by the attributes that
-- __blob_for_each_attr walks.
pub record Json : Type 0 where
  pub load : CString → Option Blob
  pub type_fields : Blob → Option (Option CString × Option (List Blob))
  pub method_fields : Blob → Option (Option CString × Option (List Blob))
  pub params_fields : Blob → Option (Option CString × Option ℕ)

-- The sizes of `struct ubus_object_type`, `struct ubus_method` and `struct blobmsg_policy`.
pub record Sizes : Type 0 where
  pub object_type : ℕ
  pub method : ℕ
  pub policy : ℕ

-- The counts of `struct ubus_object_type_info`.
pub record Info : Type 0 where
  pub n_methods : ℕ
  pub n_policys : ℕ
  pub n_strings : ℕ
  pub n_strbyte : ℕ

-- One string more.
abbrev pub add_string : CString → Info → Info
add_string s i = record i { n_strbyte = i.n_strbyte + length s; n_strings = i.n_strings + 1 }

-- The inner loop of `ubus_get_type_info`.
unfoldable pub count_params : Json → List Blob → Info → Outcome Info
count_params lib [] i = ok i
count_params lib (b ∷ bs) i = do
  (field, ty) ← or_finalize (lib.params_fields b)
  name ← follow field
  count_params lib bs (record (add_string name i) { n_policys = i.n_policys + 1 })

-- The outer one.
unfoldable pub count_methods : Json → List Blob → Info → Outcome Info
unfolding count_params
count_methods lib [] i = ok i
count_methods lib (b ∷ bs) i = do
  (field, items) ← or_finalize (lib.method_fields b)
  name ← follow field
  params ← follow items
  i1 ← count_params lib params (add_string name i)
  count_methods lib bs (record i1 { n_methods = i1.n_methods + 1 })

-- `ubus_get_type_info`: the size, and the counts.
unfoldable pub get_type_info : Json → Sizes → CString → Outcome (ℕ × Info)
unfolding count_methods
get_type_info lib S type_json = do
  buf ← or_finalize (lib.load type_json)
  (field, items) ← or_finalize (lib.type_fields buf)
  name ← follow field
  methods ← follow items
  i ←
      count_methods lib methods
        (add_string name (record { n_methods = 0; n_policys = 0; n_strings = 0; n_strbyte = 0 }))
  ok (
    S.object_type + i.n_methods * S.method + i.n_policys * S.policy + i.n_strings + i.n_strbyte,
    i,
  )

-- `struct blobmsg_policy`, `struct ubus_method` and `struct ubus_object_type` as they stand in the
-- block; a pointer is an offset in it.
pub record PolicyRow : Type 0 where
  pub name : ℕ
  pub ty : ℕ

pub record MethodRow : Type 0 where
  pub name : ℕ
  pub policy : ℕ
  pub n_policy : ℕ

pub record TypeRow : Type 0 where
  pub name : ℕ
  pub methods : ℕ
  pub n_methods : ℕ

-- The pointers `strings`, `policy` and `method` of `myinfo`, and what has been written, with the
-- place of each.
pub record Block : Type 0 where
  pub strings : ℕ
  pub policy : ℕ
  pub method : ℕ
  pub texts : List (ℕ × CString)
  pub policies : List (ℕ × PolicyRow)
  pub methods : List (ℕ × MethodRow)

-- `wrap_string`: the place of the string, and the block.
unfoldable pub wrap_string : ℕ → CString → Block → Outcome (ℕ × Block)
wrap_string limit str m = do
  assert (ltb (m.strings + length str) limit)
  ok (
    m.strings,
    record m { texts = m.texts ++ ((m.strings, str) ∷ []); strings = m.strings + length str + 1 },
  )

-- The inner loop of `ubus_parse_object_type`, with the `n_policy` of its method.
unfoldable pub parse_params : Json → Sizes → ℕ → List Blob → ℕ → Block → Outcome (ℕ × Block)
unfolding wrap_string
parse_params lib S limit [] n m = ok (n, m)
parse_params lib S limit (b ∷ bs) n m = do
  (field, ty) ← or_finalize (lib.params_fields b)
  name ← follow field
  (at, m1) ← wrap_string limit name m
  number ← follow ty
  assert (ltb (m1.policy + S.policy) limit)
  parse_params lib S limit bs (n + 1) (record m1 {
    policies = m1.policies ++ ((m1.policy, record { name = at; ty = number }) ∷ []);
    policy = m1.policy + S.policy;
  })

-- The outer one, with the `n_methods` of the type. A method is put into the block when its
-- parameters have been counted.
unfoldable pub parse_methods : Json → Sizes → ℕ → List Blob → ℕ → Block → Outcome (ℕ × Block)
unfolding wrap_string parse_params
parse_methods lib S limit [] n m = ok (n, m)
parse_methods lib S limit (b ∷ bs) n m = do
  (field, items) ← or_finalize (lib.method_fields b)
  name ← follow field
  (at, m1) ← wrap_string limit name m
  params ← follow items
  (k, m2) ← parse_params lib S limit params 0 m1
  assert (ltb (m2.method + S.method) limit)
  parse_methods lib S limit bs (n + 1) (record m2 {
    methods =
        m2.methods ++ ((m2.method, record { name = at; policy = m1.policy; n_policy = k }) ∷ []);
    method = m2.method + S.method;
  })

-- `ubus_parse_object_type`, with what it writes to the head of the block.
unfoldable pub parse_object_type : Json → Sizes → CString → ℕ → Block → Outcome (TypeRow × Block)
unfolding wrap_string parse_methods
parse_object_type lib S type_json limit m = do
  buf ← or_finalize (lib.load type_json)
  (field, items) ← or_finalize (lib.type_fields buf)
  name ← follow field
  (at, m1) ← wrap_string limit name m
  methods ← follow items
  (n, m2) ← parse_methods lib S limit methods 0 m1
  ok (record { name = at; methods = m1.method; n_methods = n }, m2)

-- The pointers that `ubus_wrap_add_object` sets in a new block.
unfoldable pub fresh_block : Sizes → Info → Block
fresh_block S i = record {
  method = S.object_type;
  policy = S.object_type + i.n_methods * S.method;
  strings = S.object_type + i.n_methods * S.method + i.n_policys * S.policy;
  texts = [];
  policies = [];
  methods = [];
}
