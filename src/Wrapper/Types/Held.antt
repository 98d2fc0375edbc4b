-- ===== src/Wrapper/Types/Held.antt =====
-- What stands in the block of an object's type (java_ubus_example/jni/ubus_wrapper.c).
use libubus_jni.Prelude.{ℕ, zero, suc, ◌+◌, ◌≡◌, refl, List, [], ◌∷◌, Option, some, length, ◌>>=◌}
use libubus_jni.Libubox.Text.{CString}
use libubus_jni.Wrapper.Types.{Sizes, PolicyRow, MethodRow, TypeRow, Block}
use libubus_jni.Wrapper.Types.Packed.{at}
use libubus_jni.Wrapper.Types.Described.{Param, Method}

-- What libubus reads: so many rows from a place on, with their names.
unfoldable pub read_params : Sizes → Block → ℕ → ℕ → Option (List Param)
unfolding at
read_params S m zero a = some []
read_params S m (suc n) a = do
  row ← at a m.policies
  name ← at row.name m.texts
  ps ← read_params S m n (a + S.policy)
  some ((name, row.ty) ∷ ps)

unfoldable pub read_methods : Sizes → Block → ℕ → ℕ → Option (List Method)
unfolding at read_params
read_methods S m zero a = some []
read_methods S m (suc n) a = do
  row ← at a m.methods
  name ← at row.name m.texts
  ps ← read_params S m row.n_policy row.policy
  ms ← read_methods S m n (a + S.method)
  some ((name, ps) ∷ ms)

unfoldable pub read_type : Sizes → Block → TypeRow → Option (CString × List Method)
unfolding at read_methods
read_type S m t = do
  name ← at t.name m.texts
  ms ← read_methods S m t.n_methods t.methods
  some (name, ms)

-- Everything of the first block stands in the second too.
pub record Extends (m m1 : Block) : Type 0 where
  pub texts : (k : ℕ) (s : CString) → at k m.texts ≡ some s → at k m1.texts ≡ some s
  pub policies : (k : ℕ) (r : PolicyRow) → at k m.policies ≡ some r → at k m1.policies ≡ some r
  pub methods : (k : ℕ) (r : MethodRow) → at k m.methods ≡ some r → at k m1.methods ≡ some r

pub Extends-refl : (m : Block) → Extends m m
Extends-refl m = record { texts = λ k s h. h; policies = λ k r h. h; methods = λ k r h. h }

pub Extends-trans : {m m1 m2 : Block} → Extends m m1 → Extends m1 m2 → Extends m m2
Extends-trans e f = record {
  texts = λ k s h. f.texts k s (e.texts k s h);
  policies = λ k r h. f.policies k r (e.policies k r h);
  methods = λ k r h. f.methods k r (e.methods k r h);
}

-- These parameters stand in the block, from this place on.
abbrev pub HasParams : Sizes → Block → ℕ → List Param → Type 0
HasParams S m a [] = Unit
HasParams S m a ((name, ty) ∷ ps) =
    ((p : ℕ) × (at a m.policies ≡ some (record { name = p; ty = ty })) × (at p m.texts ≡ some name))
    × HasParams S m (a + S.policy) ps

abbrev pub HasMethods : Sizes → Block → ℕ → List Method → Type 0
HasMethods S m a [] = Unit
HasMethods S m a ((name, ps) ∷ ms) =
    ((p q : ℕ) × (at a m.methods ≡ some (record { name = p; policy = q; n_policy = length ps }))
      × (at p m.texts ≡ some name)
      × HasParams S m q ps)
    × HasMethods S m (a + S.method) ms

pub HasParams-Extends :
    (S : Sizes) (m m1 : Block) (a : ℕ) (ps : List Param)
    → Extends m m1
    → HasParams S m a ps
    → HasParams S m1 a ps
HasParams-Extends S m m1 a [] e h = tt
HasParams-Extends S m m1 a ((name, ty) ∷ ps) e h =
    let (p, r, s) = h.0 in
    ((p, e.policies a _ r, e.texts p name s), HasParams-Extends S m m1 (a + S.policy) ps e h.1)

pub HasMethods-Extends :
    (S : Sizes) (m m1 : Block) (a : ℕ) (ms : List Method)
    → Extends m m1
    → HasMethods S m a ms
    → HasMethods S m1 a ms
HasMethods-Extends S m m1 a [] e h = tt
HasMethods-Extends S m m1 a ((name, ps) ∷ ms) e h =
    let (p, q, r, s, t) = h.0 in
    (
      (p, q, e.methods a _ r, e.texts p name s, HasParams-Extends S m m1 q ps e t),
      HasMethods-Extends S m m1 (a + S.method) ms e h.1,
    )

-- Then they are read.
read_params-Has :
    (S : Sizes) (m : Block) (a : ℕ) (ps : List Param)
    → HasParams S m a ps
    → read_params S m (length ps) a ≡ some ps
unfolding read_params
read_params-Has S m a [] h = refl
read_params-Has S m a ((name, ty) ∷ ps) h =
    let (p, r, s) = h.0 in
    let ih = read_params-Has S m (a + S.policy) ps h.1 in rw (r, read_params) (rw s (rw ih refl))

pub read_methods-Has :
    (S : Sizes) (m : Block) (a : ℕ) (ms : List Method)
    → HasMethods S m a ms
    → read_methods S m (length ms) a ≡ some ms
unfolding read_methods
read_methods-Has S m a [] h = refl
read_methods-Has S m a ((name, ps) ∷ ms) h =
    let (p, q, r, s, t) = h.0 in
    let own = read_params-Has S m q ps t in
    let ih = read_methods-Has S m (a + S.method) ms h.1 in
    rw (r, read_methods) (rw s (rw own (rw ih refl)))
