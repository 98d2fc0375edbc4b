-- ===== src/Wrapper/Outcome.antt =====
-- How a function of java_ubus_example/jni/ubus_wrapper.c ends.
use libubus_jni.Prelude.{Bool, Option, none, some, if◌then◌else◌}

-- A result, the label `finalize` with no result, or an `assert` that does not hold or a pointer NULL
-- that is followed.
pub data Outcome {κ} (R : Type κ) : Type κ where
  crash failed : Outcome R
  ok : R → Outcome R

-- A call that reports an error.
abbrev pub or_finalize {κ} : {R : Type κ} → Option R → Outcome R
or_finalize (some r) = ok r
or_finalize none = failed

-- A pointer that is followed.
abbrev pub follow {κ} : {R : Type κ} → Option R → Outcome R
follow (some r) = ok r
follow none = crash

abbrev pub assert : Bool → Outcome (Unit {0})
assert holds = if holds then ok tt else crash

-- The statements behind one that ends with a result run.
infixl 5 ◌>>=◌ ◌>>◌
abbrev pub ◌>>=◌ {κ μ} : {R : Type κ} {S : Type μ} → Outcome R → (R → Outcome S) → Outcome S
crash >>= rest = crash
failed >>= rest = failed
ok r >>= rest = rest r

abbrev pub ◌>>◌ {μ} : {S : Type μ} → Outcome (Unit {0}) → Outcome S → Outcome S
step >> rest = elim step [ crash ↦ crash | failed ↦ failed | ok _ ↦ rest ]
