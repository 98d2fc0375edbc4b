-- ===== src/Ubusd/Edits/Freed.antt =====
-- The received message is freed once.
use libubus_jni.Prelude.{ℕ, ◌+◌, suc, ◌≡◌, refl, List, [], ◌∷◌, some, Ensures-some, ◌∙◌, arith}
use libubus_jni.Ubusd.Message.{Blobmsg, MsgBuf}
use libubus_jni.Ubusd.State.{Daemon, Effect, sent, freed, closed, add_log}
use libubus_jni.Ubusd.Proto.Receive.{receive_message}
use libubus_jni.Ubusd.Edits.{Edit, Edits, done, next, object_set, object_add}
use libubus_jni.Ubusd.Edits.Handlers.{receive_message-Received}

-- How often a reference to a received message was given up.
unfoldable pub frees : List Effect → ℕ
frees [] = 0
frees (freed ∷ log) = suc (frees log)
frees (sent c m ∷ log) = frees log
frees (closed fd ∷ log) = frees log

Edit-frees : {d e : Daemon} → Edit d e → frees e.log ≡ frees d.log
unfolding frees add_log
Edit-frees (object_set id f) = refl
Edit-frees (object_add id x h) = refl
Edit-frees _ = refl

Edits-frees : {d e : Daemon} → Edits d e → frees e.log ≡ frees d.log
Edits-frees done = refl
Edits-frees (next r x) = Edit-frees x ∙ Edits-frees r

-- Whatever message a client sends and whatever handler it meets, unless the code faults the
-- message is freed exactly once: by the handler if it returns -1, otherwise by the dispatcher,
-- never by both.
pub receive_message-frees :
    (B : Blobmsg) (cl : ℕ) (ub : MsgBuf) (d e : Daemon)
    → receive_message B cl ub d ≡ some e
    → frees e.log ≡ frees d.log + 1
unfolding frees add_log
receive_message-frees B cl ub d e h =
    let (f, before, behind) = Ensures-some (receive_message-Received B cl ub d) h in
    omega (arith, Edits-frees before, Edits-frees behind)
