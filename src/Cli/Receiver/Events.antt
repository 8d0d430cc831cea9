-- ===== src/Cli/Receiver/Events.antt =====
-- cli/transfer.ts: the receive queue of `receiveFiles`, the events, and the states that they reach.
use p2p_transfer.Base.{
  ℕ, ◌+◌, ◌-◌, Bool, ◌||◌, Option, none, some, List, [], ◌∷◌, ◌++◌, Text, ltb, if◌then◌else◌,
  length, nat_eq,
}
use p2p_transfer.Shared.Text.{utf8_byte_length}
use p2p_transfer.Shared.Messages.{FileManifest}
use p2p_transfer.Cli.Receiver.{
  initial_receiver, Incoming, text, array_buffer, byte_array, blob, other, Queued, Receiver,
  stopped, fail_transfer, final_cleanup,
}
use p2p_transfer.Cli.Receiver.Tasks.{Answers}
use p2p_transfer.Cli.Receiver.Handlers.{handle}

abbrev pub receive_queue_max_bytes : ℕ
receive_queue_max_bytes = 33554432

abbrev pub receive_queue_max_messages : ℕ
receive_queue_max_messages = 4096

-- `receiveQueueByteLength`
unfoldable pub receive_queue_byte_length : Incoming → ℕ
receive_queue_byte_length (text s) = utf8_byte_length s
receive_queue_byte_length (array_buffer bytes) = length bytes
receive_queue_byte_length (byte_array bytes) = length bytes
receive_queue_byte_length (blob (some n)) = n
receive_queue_byte_length (blob none) = receive_queue_max_bytes + 1
receive_queue_byte_length other = receive_queue_max_bytes + 1

-- The state with the queue of tasks. The task that runs is the first one.
pub record Receiving : Type 0 where
  pub receiver : Receiver
  pub queue : List Queued
  pub queued_bytes : ℕ
  pub queued_messages : ℕ

abbrev pub initial_receiving : Receiving
initial_receiving = record {
  receiver = initial_receiver;
  queue = [];
  queued_bytes = 0;
  queued_messages = 0;
}

-- `enqueueReceiveTask`. What arrives while a task runs could as well have arrived before it.
unfoldable pub enqueue_receive_task : Bool → Queued → Receiving → Receiving
unfolding receive_queue_byte_length fail_transfer
enqueue_receive_task notified job s =
    let byte_length = receive_queue_byte_length job.received in
    let full =
      ltb receive_queue_max_bytes (s.queued_bytes + byte_length)
      || ltb receive_queue_max_messages (s.queued_messages + 1) in
    if stopped s.receiver
    then s
    else if full
    then record s { receiver = fail_transfer notified s.receiver }
    else record s {
      queue = s.queue ++ job ∷ [];
      queued_bytes = s.queued_bytes + byte_length;
      queued_messages = s.queued_messages + 1;
    }

module _ (is_format : ℕ → Bool) (sha256 : List ℕ → Text) (accepted : Option FileManifest) where
  -- `runTask` of the first task, with its `finally`.
  unfoldable pub run_task : Answers → Receiving → Receiving
  unfolding receive_queue_byte_length
  run_task env s = elim s.queue [
    | [] ↦ s
    | job ∷ rest ↦ record {
      receiver = handle is_format sha256 accepted env job s.receiver;
      queue = rest;
      queued_bytes = s.queued_bytes - receive_queue_byte_length job.received;
      queued_messages = s.queued_messages - 1;
    }
  ]

-- The timer of `resetReceiveTimeout`, if it is set.
unfoldable pub on_idle_timer : Bool → Receiver → Receiver
unfolding fail_transfer
on_idle_timer notified s = if s.idle_timer then fail_transfer notified s else s

-- `done` is settled: the `finally` of `receiveFiles`.
unfoldable pub on_settled : (ℕ → Bool) → Receiver → Receiver
unfolding final_cleanup
on_settled removed s = if stopped s then final_cleanup removed s else s

-- One event, whatever the peer, the channels and the file system answer. `broken` is the end or an
-- error of a channel, or an error of a file's stream.
pub data Step (is_format : ℕ → Bool) (sha256 : List ℕ → Text) (accepted : Option FileManifest)
    : Receiving → Receiving → Type 0 where
  arrival :
      (notified : Bool) (job : Queued) {s : Receiving}
      → Step is_format sha256 accepted s (enqueue_receive_task notified job s)
  task :
      (env : Answers) {s : Receiving}
      → Step is_format sha256 accepted s (run_task is_format sha256 accepted env s)
  broken :
      (notified : Bool) {s : Receiving}
      → Step is_format sha256 accepted s (record s { receiver = fail_transfer notified s.receiver })
  idle :
      (notified : Bool) {s : Receiving}
      → Step is_format sha256 accepted s (record s { receiver = on_idle_timer notified s.receiver })
  settled :
      (removed : ℕ → Bool) {s : Receiving}
      → Step is_format sha256 accepted s (record s { receiver = on_settled removed s.receiver })

pub data IsReachable (is_format : ℕ → Bool) (sha256 : List ℕ → Text)
    (accepted : Option FileManifest) : Receiving → Type 0 where
  initial : IsReachable is_format sha256 accepted initial_receiving
  after :
      {s t : Receiving}
      → IsReachable is_format sha256 accepted s
      → Step is_format sha256 accepted s t
      → IsReachable is_format sha256 accepted t
