-- ===== src/Ubusd/Edits/Outcome.antt =====
-- What a handler of messages does to the state, by its result. A handler that returns -1 ends with
-- the received message freed; any other leaves that to `ubusd_proto_receive_message`.
use libubus_jni.Prelude.{
  ℕ, ◌≡◌, Bool, List, Option, some, Ensures, fault, ensured, >>=-Ensures, Ensures-mono, ◌>>=◌,
}
use libubus_jni.Libubox.Tree.{id_ord, string_ord}
use libubus_jni.Ubusd.Message.{MsgBuf, MsgType, Field, Status}
use libubus_jni.Ubusd.State.{Daemon, add_log, freed}
use libubus_jni.Ubusd.Proto.Reply.{Ret, status, consumed, send_msg_from_blob}
use libubus_jni.Ubusd.Proto.Lookup.{found_or}
use libubus_jni.Ubusd.Edits.{Edits, Edits-trans}
use libubus_jni.Ubusd.Edits.Events.{send_to-Edits}

-- What a handler does to the state, by its result.
abbrev pub Outcome : Daemon → Ret × Daemon → Type 0
Outcome d (status st, e) = Edits d e
Outcome d (consumed, e) = (f : Daemon) × Edits d f × (e ≡ add_log freed f)

Outcome_trans : {d e : Daemon} (r : Ret × Daemon) → Edits d e → Outcome e r → Outcome d r
Outcome_trans (status st, f) s o = Edits-trans s o
Outcome_trans (consumed, f) s o = (o.0, Edits-trans s o.1, o.2)

pub Outcome-after :
    {d e : Daemon} {m : Option (Ret × Daemon)}
    → Edits d e
    → Ensures (Outcome e) m
    → Ensures (Outcome d) m
Outcome-after s h = Ensures-mono h (λ r o. Outcome_trans r s o)

-- A change of the state with a status at its end.
pub ending :
    (st : Status) {d : Daemon} {m : Option Daemon}
    → Ensures (Edits d) m
    → Ensures (Outcome d) (m >>= λ e. some (status st, e))
ending st h = >>=-Ensures h (λ e r. ensured r)

pub found_or-Outcome :
    {d : Daemon} {m : Option (Bool × Daemon)}
    → Ensures (λ r. Edits d r.1) m
    → Ensures (Outcome d) (found_or m)
found_or-Outcome fault = fault
found_or-Outcome (ensured s) = ensured s

pub send_msg-Edits :
    (c : Option ℕ) (ub : MsgBuf) (type : MsgType) (fields : List Field) (d : Daemon)
    → Ensures (Edits d) (send_msg_from_blob c ub type fields d)
unfolding send_msg_from_blob
send_msg-Edits c ub type fields d = send_to-Edits c _ d
