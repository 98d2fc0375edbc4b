-- ===== src/Wrapper/Objects/Served.antt =====
-- An object that Java adds has the methods that its JSON text describes
-- (java_ubus_example/jni/ubus_wrapper.c and ubus/libubus-obj.c).
use mathlib.Core.Option
use libubus_jni.Prelude.{ℕ, ◌+◌, ◌≡◌, true, false, List, ◌∷◌, Option, none, some, get_or, map}
use libubus_jni.Libubox.Text.{CString}
use libubus_jni.Libubox.Tree.{find, update, id_ord}
use libubus_jni.Libubus.Object.{Method, Object, Host, object}
use libubus_jni.Wrapper.Outcome.{Outcome}
use libubus_jni.Wrapper.Types.Described
use libubus_jni.Wrapper.Incoming.Answered.{AllDeferred}
use libubus_jni.Wrapper.Objects.{Table, deferring_method, typed_object, cleared_object}

-- The table while the type is written to the object.
abbrev typed_host : ℕ → ℕ → CString → List Method → Host → Host
typed_host index block name fs h = record h {
  memory = update index (typed_object name block fs) h.memory;
  types = (block, 0) ∷ h.types;
}

-- A removed object is cleared and its type is gone, while libubus has it in its tree still.
pub record Dangles (a id block : ℕ) (T : Table) : Type 0 where
  pub zeroed : object a T.host ≡ some cleared_object
  pub filed : find id T.host.objects ≡ some a
  pub freed : find block T.blocks ≡ none
  pub unused : get_or T.in_use a true ≡ false

-- The object of an index behind its addition.
pub record Serves (T T1 : Table) (id : ℕ) (name : CString) (ms : List Described.Method)
    : Type 0 where
  pub added : Object
  pub in_memory : object T.nobject T1.host ≡ some added
  pub filed : find id T1.host.objects ≡ some T.nobject
  pub has_id : added.id ≡ id
  pub named : added.name ≡ some name
  pub methods : added.methods ≡ map deferring_method ms
  pub all : AllDeferred added.methods
  pub next : T1.nobject ≡ T.nobject + 1
