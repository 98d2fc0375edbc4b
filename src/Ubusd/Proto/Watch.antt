-- ===== src/Ubusd/Proto/Watch.antt =====
-- ubus/ubusd_proto.c: subscriptions by message.
use libubus_jni.Prelude.{
  ℕ, Bool, true, false, List, [], ◌∷◌, Option, none, some, ◌==◌, if◌then◌else◌, ◌>>=◌,
}
use libubus_jni.Libubox.Tree.{id_ord, string_ord}
use libubus_jni.Ubusd.Message.{Attrs, Status}
use libubus_jni.Ubusd.State.{Daemon, find_object, same_client}
use libubus_jni.Ubusd.Subscription.{subscribe, unsubscribe}
use libubus_jni.Ubusd.Proto.Reply.{Ret, status, Handler}

-- `ubusd_handle_add_watch` with both attributes there.
unfoldable pub add_watch : ℕ → ℕ → ℕ → Daemon → Option (Ret × Daemon)
unfolding find_object same_client subscribe
add_watch cl id target d = elim (find_object id d) [
  | none ↦ some (status Status.not_found, d)
  | some o ↦
      let to : Option (Ret × Daemon) = elim (find_object target d) [
        | none ↦ some (status Status.not_found, d)
        | some t ↦
            if same_client (some cl) t.client
            then some (status Status.invalid_argument, d)
            else (subscribe id target d >>= λ d1. some (status Status.ok, d1))
      ] in
      if same_client (some cl) o.client then to else some (status Status.invalid_argument, d)
]

-- The loop of `ubusd_handle_remove_watch`: whether the target is on the list.
abbrev pub has_target : ℕ → List ℕ → Bool
has_target t [] = false
has_target t (x ∷ xs) = if x == t then true else has_target t xs

-- `ubusd_handle_remove_watch` with both attributes there.
unfoldable pub remove_watch : ℕ → ℕ → ℕ → Daemon → Option (Ret × Daemon)
unfolding find_object same_client unsubscribe
remove_watch cl id target d = elim (find_object id d) [
  | none ↦ some (status Status.not_found, d)
  | some o ↦
      let found = unsubscribe id target d >>= λ d1. some (status Status.ok, d1) in
      if same_client (some cl) o.client
      then (if has_target target o.target_list then found else some (status Status.not_found, d))
      else some (status Status.invalid_argument, d)
]

-- Both attributes of a watch, or UBUS_STATUS_INVALID_ARGUMENT.
unfoldable pub with_watch :
    Attrs → (ℕ → ℕ → Daemon → Option (Ret × Daemon)) → Daemon → Option (Ret × Daemon)
with_watch a f d = elim a.objid [
  | none ↦ some (status Status.invalid_argument, d)
  | some id ↦ elim a.target [
    | none ↦ some (status Status.invalid_argument, d)
    | some target ↦ f id target d
  ]
]

-- `ubusd_handle_add_watch`
unfoldable pub handle_add_watch : Handler
unfolding with_watch add_watch
handle_add_watch cl ub d = with_watch ub.attrs (add_watch cl) d

-- `ubusd_handle_remove_watch`
unfoldable pub handle_remove_watch : Handler
unfolding with_watch remove_watch
handle_remove_watch cl ub d = with_watch ub.attrs (remove_watch cl) d
