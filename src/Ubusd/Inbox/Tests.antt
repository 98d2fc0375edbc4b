-- ===== src/Ubusd/Inbox/Tests.antt =====
-- The theorems about the receiving of messages at concrete inputs.
use libubus_jni.Prelude.{
  ℕ, ◌<◌, ◌≤◌, length, take, replicate, ◌≡◌, refl, true, false, List, [], ◌∷◌, none, some, arith,
}
use libubus_jni.Libubox.Text.{last_or}
use libubus_jni.Libubox.Tree.{id_ord, string_ord}
use libubus_jni.Ubusd.Inbox.{BlobLen, Inbox, got, out, overrun, hdrbuf_size, round, receive}
use libubus_jni.Ubusd.Inbox.Split.{round-split}
use libubus_jni.Ubusd.Inbox.Frames.{
  Sent, IsIdle, AllMessages, all_reads, frames_of, receive-frames_of,
}

abbrev lengths : BlobLen
lengths = record { raw_len = λ b. last_or 0 b; pad_len = λ b. last_or 0 b }

abbrev idle : Inbox
idle = record {
  eof = false;
  hdrbuf = replicate 12 0;
  pending_msg_offset = 0;
  pending_msg_fd = none;
  pending_msg = none;
}

idle-IsIdle : IsIdle idle
idle-IsIdle = record { connected = refl; buffer = refl; offset = refl; no_fd = refl; no_msg = refl }

-- A message without attributes, and one with two bytes of them and a descriptor.
abbrev two_messages : List Sent
two_messages =
    record { hdr = replicate 8 1; attr = 0 ∷ 0 ∷ 0 ∷ 4 ∷ []; body = []; fd = none }
    ∷ record { hdr = replicate 8 2; attr = 0 ∷ 0 ∷ 0 ∷ 6 ∷ []; body = 5 ∷ 7 ∷ []; fd = some 3 }
    ∷ []

two_messages-AllMessages : AllMessages lengths two_messages
unfolding last_or
two_messages-AllMessages = (
  record { hdr_whole = refl; attr_whole = refl; raw = refl; short = omega arith },
  (record { hdr_whole = refl; attr_whole = refl; raw = refl; short = omega arith }, tt),
)

receive-frames_of_example :
    (i : Inbox) × IsIdle i
    × (receive lengths (all_reads two_messages) idle ≡ some (frames_of two_messages, true, i))
receive-frames_of_example =
    receive-frames_of lengths two_messages idle two_messages-AllMessages idle-IsIdle

round-split_example :
    (i : Inbox) × (n : ℕ) × (round lengths (got (0 ∷ 1 ∷ []) none) idle ≡ some (out, i))
    × (i.pending_msg_offset ≡ 2)
    × (round lengths (got (0 ∷ 9 ∷ []) none) i ≡ some (overrun 24 n, i))
    × (n ≡ length {A = ℕ} (take 10 (0 ∷ 9 ∷ [])))
    × (0 < n)
    × (hdrbuf_size ≤ 24)
round-split_example =
    round-split lengths idle (0 ∷ 1 ∷ []) (0 ∷ 9 ∷ []) none none idle-IsIdle (omega arith)
      (omega arith) (omega arith)
