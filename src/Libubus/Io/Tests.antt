-- ===== src/Libubus/Io/Tests.antt =====
-- The theorems about the connection of a client at concrete inputs.
use libubus_jni.Prelude.{
  replicate, ◌++◌, ◌≡◌, refl, true, false, ℕ, zero, suc, List, [], ◌∷◌, none, some, arith,
}
use libubus_jni.Libubox.Text.{last_or}
use libubus_jni.Ubusd.Inbox.{BlobLen}
use libubus_jni.Ubusd.Inbox.Frames.{Sent, IsMessage}
use libubus_jni.Libubus.Io.Sending.{SendOutcome, takes, again, Wire, send_msg, writev_retry}
use libubus_jni.Libubus.Io.Sending.Ending.{OnWire, send_msg-OnWire}
use libubus_jni.Libubus.Io.Sending.Descriptor.{Passes, writev_retry-Passes}
use libubus_jni.Libubus.Io.Receiving.{
  RecvOutcome, gives, interrupted, Reader, get_next_msg, handle_data,
}
use libubus_jni.Libubus.Io.Receiving.Pieces.{AllGive}
use libubus_jni.Libubus.Io.Receiving.Bounds.{StaysSized, get_next_msg-StaysSized}
use libubus_jni.Libubus.Io.Receiving.Opening.{bytes_of, Gets}
use libubus_jni.Libubus.Io.Receiving.Messages.{get_next_msg-Gets}
use libubus_jni.Libubus.Io.Receiving.Handled.{Handles, all_bytes, handle_data-Handles}

abbrev unwritten : Wire
unwritten = record { bytes = []; fds = [] }

-- Three bytes, taken by pieces of one and five, with a wait before the second.
abbrev by_pieces : List SendOutcome
by_pieces = takes 1 ∷ again ∷ takes 5 ∷ takes 1 ∷ []

send_msg-OnWire_example :
    OnWire 3 (7 ∷ 8 ∷ 9 ∷ []) (some 4) (send_msg by_pieces (7 ∷ 8 ∷ []) (9 ∷ []) (some 4) unwritten)
send_msg-OnWire_example =
    send_msg-OnWire by_pieces (7 ∷ 8 ∷ []) (9 ∷ []) (some 4) unwritten
      (omega arith, (omega arith, (omega arith, tt))) (omega arith) (omega arith)

writev_retry-Passes_example :
    Passes 4 1 2 unwritten
      (writev_retry by_pieces ((7 ∷ 8 ∷ []) ∷ (9 ∷ []) ∷ []) (some 4) 0 unwritten)
writev_retry-Passes_example =
    writev_retry-Passes by_pieces ((7 ∷ 8 ∷ []) ∷ (9 ∷ []) ∷ []) 4 unwritten
      (omega arith, (omega arith, (omega arith, tt))) (omega arith)

-- A first piece that is short: the descriptor goes over twice.
fd_twice :
    (writev_retry by_pieces ((7 ∷ 8 ∷ []) ∷ (9 ∷ []) ∷ []) (some 4) 0 unwritten).1.fds ≡ 4 ∷ 4 ∷ []
unfolding writev_retry
fd_twice = refl

abbrev lengths : BlobLen
lengths = record { raw_len = λ b. last_or 0 b; pad_len = λ b. last_or 0 b }

abbrev new_reader : Reader
new_reader = record {
  eof = false;
  hdr = [];
  data_bytes = [];
  room = some 65536;
  msgbuf_data_len = 65536;
  msgbuf_reduction_counter = 0;
}

abbrev with_body : Sent
with_body = record {
  hdr = replicate 8 0;
  attr = 0 ∷ 0 ∷ 0 ∷ 6 ∷ [];
  body = 5 ∷ 7 ∷ [];
  fd = some 3;
}

with_body-IsMessage : IsMessage lengths with_body
unfolding last_or
with_body-IsMessage = record {
  hdr_whole = refl;
  attr_whole = refl;
  raw = refl;
  short = omega arith;
}

abbrev ones : ℕ → List RecvOutcome
ones n = replicate n (gives 1 none)

ones-AllGive : (W : Type 0) (n : ℕ) → AllGive W (ones n)
ones-AllGive W zero = tt
ones-AllGive W (suc n) = (omega arith, ones-AllGive W n)

get_next_msg-Gets_example : Gets Unit (gives 1 (some 3) ∷ ones 13) with_body (some 3) (8 ∷ 9 ∷ []) (
    get_next_msg lengths
      (λ _. true)
      (gives 1 (some 3) ∷ ones 13)
      (bytes_of with_body ++ (8 ∷ 9 ∷ []))
      none
      new_reader)
get_next_msg-Gets_example =
    get_next_msg-Gets lengths (λ _. true) with_body 1 (some 3) none (ones 13) (8 ∷ 9 ∷ [])
      new_reader with_body-IsMessage refl (λ _. refl) (omega arith) (ones-AllGive Unit 13)
      (omega arith)

get_next_msg-StaysSized_example :
    StaysSized (get_next_msg lengths (λ _. true) (ones 14) (bytes_of with_body) none new_reader)
get_next_msg-StaysSized_example =
    get_next_msg-StaysSized lengths (λ _. true) (ones 14) (bytes_of with_body) none new_reader
      (refl, omega arith, omega arith)

handle_data-Handles_example : Handles (with_body ∷ []) (
    handle_data lengths
      (λ _. true)
      (λ _. false)
      2
      (interrupted ∷ ones 15)
      (all_bytes (with_body ∷ []))
      none
      new_reader)
handle_data-Handles_example =
    handle_data-Handles lengths (λ _. true) (λ _. false) (λ _. refl) (λ _. refl) (with_body ∷ []) 2
      (interrupted ∷ ones 15) none new_reader ((with_body-IsMessage, refl), tt) (ones-AllGive ⊥ 15)
      (omega arith) (omega arith)
