-- ===== src/Shared/SignalQueue.antt =====
-- shared/signal-queue.ts: the queue of signals that wait for the WebRTC connection. A message is
-- its serialized form with its bytes, and `none` is a message that is no signal.
pub mod Bounded
use p2p_transfer.Base.{
  ℕ, ◌+◌, Bool, true, false, ◌&&◌, Option, none, some, List, [], ◌∷◌, ◌++◌, Number, Text,
  safe_natural, ltb, leb, if◌then◌else◌, length,
}
use p2p_transfer.Shared.Text.{utf8_byte_length}

abbrev pub max_buffered_signal_messages : ℕ
max_buffered_signal_messages = 300

-- `max_bytes` is the none for a queue without that limit, `Number.POSITIVE_INFINITY`.
pub record SignalMessageQueue : Type 0 where
  pub messages : List Text
  pub buffered_bytes : ℕ
  pub max_messages : ℕ
  pub max_bytes : Option ℕ

unfoldable pub queue_limit_input : Number → ℕ → Option ℕ
queue_limit_input value max = elim (safe_natural value) [
  | none ↦ none
  | some n ↦ if leb 1 n && leb n max then some n else none
]

unfoldable pub new_queue : ℕ → Option ℕ → SignalMessageQueue
new_queue max_messages max_bytes = record {
  messages = [];
  buffered_bytes = 0;
  max_messages = max_messages;
  max_bytes = max_bytes;
}

pub data Pushed : Type 0 where
  pushed : SignalMessageQueue → Pushed
  too_many_messages not_a_signal too_many_bytes : Pushed

abbrev pub exceeds : ℕ → Option ℕ → Bool
exceeds bytes none = false
exceeds bytes (some limit) = ltb limit bytes

-- An error leaves the queue as it is.
unfoldable pub push : SignalMessageQueue → Option Text → Pushed
push queue message =
    let tried : Pushed = elim message [
      | none ↦ not_a_signal
      | some copy ↦
          let bytes = queue.buffered_bytes + utf8_byte_length copy in
          if exceeds bytes queue.max_bytes
          then too_many_bytes
          else pushed
              (record queue { messages = queue.messages ++ copy ∷ []; buffered_bytes = bytes })
    ] in
    if leb queue.max_messages (length queue.messages) then too_many_messages else tried

unfoldable pub drain : SignalMessageQueue → SignalMessageQueue × List Text
drain queue = (record queue { messages = []; buffered_bytes = 0 }, queue.messages)
