-- ===== src/Cli/Receiver/Queue.antt =====
-- cli/transfer.ts: the accounts of the receive queue.
use p2p_transfer.Base.{
  ℕ, ◌+◌, ◌-◌, ◌≤◌, ◌≡◌, refl, ap, Bool, true, false, ◌||◌, Option, List, [], ◌∷◌, ◌++◌, Text,
  if◌then◌else◌, length, length-append, nat_eq, arith,
}
use p2p_transfer.Shared.Messages.{FileManifest}
use p2p_transfer.Cli.Receiver.{Receiver, stopped, fail_transfer}
use p2p_transfer.Cli.Receiver.Tasks.{Answers}
use p2p_transfer.Base.{ltb}
use p2p_transfer.Base.{ltb}
use p2p_transfer.Base.{length-append}
use p2p_transfer.Cli.Receiver.{Queued}
use p2p_transfer.Cli.Receiver.Handlers.{handle}
use p2p_transfer.Cli.Receiver.Events.{
  Receiving, receive_queue_max_bytes, receive_queue_max_messages, receive_queue_byte_length,
  enqueue_receive_task, run_task, Step, arrival, task, broken, idle, settled, IsReachable, initial,
  after,
}

pub bytes_queued : List Queued → ℕ
bytes_queued [] = 0
bytes_queued (job ∷ jobs) = receive_queue_byte_length job.received + bytes_queued jobs

bytes_queued-append :
    (jobs : List Queued) (job : Queued)
    → bytes_queued (jobs ++ job ∷ []) ≡ bytes_queued jobs + receive_queue_byte_length job.received
unfolding bytes_queued
bytes_queued-append [] job = omega arith
bytes_queued-append (x ∷ jobs) job = omega (arith, bytes_queued-append jobs job)

-- The counters are those of the queue, within the bounds.
pub record IsAccounted (r : Receiving) : Type 0 where
  pub bytes_counted : r.queued_bytes ≡ bytes_queued r.queue
  pub messages_counted : r.queued_messages ≡ length r.queue
  pub bytes_bounded : r.queued_bytes ≤ receive_queue_max_bytes
  pub messages_bounded : r.queued_messages ≤ receive_queue_max_messages

if-IsAccounted :
    (b : Bool) (s t : Receiving)
    → (b ≡ true → IsAccounted s)
    → (b ≡ false → IsAccounted t)
    → IsAccounted (if b then s else t)
if-IsAccounted true s t h k = h refl
if-IsAccounted false s t h k = k refl

-- Another state of the receiver.
with_receiver :
    (r : Receiving) (s : Receiver) → IsAccounted r → IsAccounted (record r { receiver = s })
with_receiver r s a = record {
  bytes_counted = a.bytes_counted;
  messages_counted = a.messages_counted;
  bytes_bounded = a.bytes_bounded;
  messages_bounded = a.messages_bounded;
}

queued-IsAccounted :
    (job : Queued) (r : Receiving)
    → (ltb receive_queue_max_bytes (r.queued_bytes + receive_queue_byte_length job.received)
        || ltb receive_queue_max_messages (r.queued_messages + 1))
      ≡ false
    → IsAccounted r
    → IsAccounted (record r {
      queue = r.queue ++ job ∷ [];
      queued_bytes = r.queued_bytes + receive_queue_byte_length job.received;
      queued_messages = r.queued_messages + 1;
    })
queued-IsAccounted job r f a = record {
  bytes_counted = omega (arith, bytes_queued-append r.queue job, a.bytes_counted);
  messages_counted = omega (arith, length-append r.queue (job ∷ []), a.messages_counted);
  bytes_bounded = ground (arith, f);
  messages_bounded = ground (arith, f);
}

enqueue-IsAccounted :
    (notified : Bool) (job : Queued) (r : Receiving)
    → IsAccounted r
    → IsAccounted (enqueue_receive_task notified job r)
unfolding enqueue_receive_task
enqueue-IsAccounted notified job r a =
    if-IsAccounted (stopped r.receiver) r _ (λ e. a)
      (λ e.
        if-IsAccounted _ (record r { receiver = fail_transfer notified r.receiver }) _
          (λ f. with_receiver r _ a) (λ f. queued-IsAccounted job r f a))

module _ (is_format : ℕ → Bool) (sha256 : List ℕ → Text) (accepted : Option FileManifest) where
  ran-IsAccounted :
      (env : Answers) (job : Queued) (rest : List Queued) (r : Receiving)
      → r.queue ≡ job ∷ rest
      → IsAccounted r
      → IsAccounted (record {
        receiver = handle is_format sha256 accepted env job r.receiver;
        queue = rest;
        queued_bytes = r.queued_bytes - receive_queue_byte_length job.received;
        queued_messages = r.queued_messages - 1;
      })
  unfolding bytes_queued
  ran-IsAccounted env job rest r e a = record {
    bytes_counted = omega (arith, a.bytes_counted, ap bytes_queued e);
    messages_counted = omega (arith, a.messages_counted, ap length e);
    bytes_bounded = omega (arith, a.bytes_bounded);
    messages_bounded = omega (arith, a.messages_bounded);
  }

  run-IsAccounted :
      (env : Answers) (r : Receiving)
      → IsAccounted r
      → IsAccounted (run_task is_format sha256 accepted env r)
  unfolding run_task
  run-IsAccounted env r a = queue-IsAccounted r.queue refl
    where
      queue-IsAccounted :
          (q : List Queued)
          → r.queue ≡ q
          → IsAccounted (elim q as (λ k. Receiving) [
            | [] ↦ r
            | job ∷ rest ↦ record {
              receiver = handle is_format sha256 accepted env job r.receiver;
              queue = rest;
              queued_bytes = r.queued_bytes - receive_queue_byte_length job.received;
              queued_messages = r.queued_messages - 1;
            }
          ])
      queue-IsAccounted [] e = a
      queue-IsAccounted (job ∷ rest) e = ran-IsAccounted env job rest r e a

  Step-IsAccounted :
      {r t : Receiving} → Step is_format sha256 accepted r t → IsAccounted r → IsAccounted t
  Step-IsAccounted {r} (arrival notified job) a = enqueue-IsAccounted notified job r a
  Step-IsAccounted {r} (task env) a = run-IsAccounted env r a
  Step-IsAccounted {r} (broken notified) a = with_receiver r _ a
  Step-IsAccounted {r} (idle notified) a = with_receiver r _ a
  Step-IsAccounted {r} (settled removed) a = with_receiver r _ a

  -- In every state that any events reach, the receive queue counts the bytes and the messages that it
  -- holds, and they are at most 32 MiB and 4096.
  pub IsReachable-IsAccounted :
      {r : Receiving} → IsReachable is_format sha256 accepted r → IsAccounted r
  unfolding bytes_queued
  IsReachable-IsAccounted initial = record {
    bytes_counted = refl;
    messages_counted = refl;
    bytes_bounded = omega arith;
    messages_bounded = omega arith;
  }
  IsReachable-IsAccounted (after before step) =
      Step-IsAccounted step (IsReachable-IsAccounted before)
