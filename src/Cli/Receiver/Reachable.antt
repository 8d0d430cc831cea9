-- ===== src/Cli/Receiver/Reachable.antt =====
-- cli/transfer.ts: what holds of `receiveFiles` after any events.
use p2p_transfer.Base.{
  ℕ, ◌-◌, ◌≡◌, refl, Bool, true, false, Option, List, [], ◌∷◌, Text, if◌then◌else◌, lookup, nat_eq,
  arith, Bool-cases, inl, inr,
}
use p2p_transfer.Shared.Messages.{FileManifest}
use p2p_transfer.Cli.Receiver.{Receiver, stopped, fail_transfer}
use p2p_transfer.Cli.Receiver.Triples.{After, Runs, IsSound}
use p2p_transfer.Cli.Receiver.Tasks.{Answers}
use p2p_transfer.Cli.Receiver.{Run, thrown, value}
use p2p_transfer.Cli.Receiver.Primitives.{Ends, Goes}
use p2p_transfer.Cli.Receiver.{Incoming, Queued, Channel, control, bulk, reset_receive_timeout}
use p2p_transfer.Cli.Receiver.Handlers.{caught, task_of, handle}
use p2p_transfer.Cli.Receiver.{initial_receiver}
use p2p_transfer.Cli.Receiver.Events.{
  Receiving, receive_queue_byte_length, enqueue_receive_task, run_task, on_idle_timer, on_settled,
  Step, arrival, task, broken, idle, settled, IsReachable, initial, after,
}
use p2p_transfer.Cli.Receiver.Keeping.{fail_transfer-Sound, Thrown-Sound, final_cleanup-Sound}
use p2p_transfer.Cli.Receiver.Handling.{control_task-Runs}
use p2p_transfer.Cli.Receiver.Receiving.{bulk_task-Runs}

module _ (is_format : ℕ → Bool) (sha256 : List ℕ → Text) (accepted : Option FileManifest) where
  abbrev Settled : Receiver → Type 0
  Settled = IsSound is_format sha256 accepted

  reset-Going :
      (s : Receiver)
      → Settled s
      → stopped s ≡ false
      → Goes is_format sha256 accepted (reset_receive_timeout s)
  unfolding reset_receive_timeout
  reset-Going s v going =
      let w = v.weak in
      record {
        sound = record {
          weak = record {
            files = w.files;
            expected = w.expected;
            unset = w.unset;
            all_seen = w.all_seen;
            distinct = w.distinct;
            finished = λ completed. ground (arith, going, completed);
          };
          agreed = λ unfailed m is.
              let a = v.agreed unfailed m is in record { matches = a.matches; expects = a.expects };
          watched = λ h. ground (arith, going);
        };
        running = ground (arith, going);
      }

  caught-Settled :
      (notified : Bool) (r : Run (Unit {0}))
      → After (λ u s. Settled s) (Ends is_format sha256 accepted) r
      → Settled (elim r as (λ k. Receiver) [ thrown t ↦ fail_transfer notified t | value u t ↦ t ])
  caught-Settled notified (value u t) h = h
  caught-Settled notified (thrown t) h = Thrown-Sound is_format sha256 accepted notified t h

  channel-Runs :
      (env : Answers) (channel : Channel) (received : Incoming)
      → Runs
          (Goes is_format sha256 accepted)
          (λ u s. Settled s)
          (Ends is_format sha256 accepted)
          (task_of is_format sha256 accepted env
            (record { channel = channel; received = received }))
  channel-Runs env control received = control_task-Runs is_format sha256 accepted env
  channel-Runs env bulk received = bulk_task-Runs is_format sha256 accepted env received

  if-Settled :
      (b : Bool) (s t : Receiver)
      → (b ≡ true → Settled s)
      → (b ≡ false → Settled t)
      → Settled (if b then s else t)
  if-Settled true s t h k = h refl
  if-Settled false s t h k = k refl

  if-receiver :
      (b : Bool) (s t : Receiving)
      → (b ≡ true → Settled s.receiver)
      → (b ≡ false → Settled t.receiver)
      → Settled (if b then s else t).receiver
  if-receiver true s t h k = h refl
  if-receiver false s t h k = k refl

  handle-Settled :
      (env : Answers) (job : Queued) (s : Receiver)
      → Settled s
      → Settled (handle is_format sha256 accepted env job s)
  unfolding handle caught
  handle-Settled env job s v =
      if-Settled (stopped s) s _ (λ e. v)
        (λ e.
          caught-Settled env.notified
            (task_of is_format sha256 accepted env job (reset_receive_timeout s))
            ((channel-Runs env job.channel job.received).after (reset_receive_timeout s)
              (reset-Going s v e)))

  enqueue-Settled :
      (notified : Bool) (job : Queued) (r : Receiving)
      → Settled r.receiver
      → Settled (enqueue_receive_task notified job r).receiver
  unfolding enqueue_receive_task
  enqueue-Settled notified job r v =
      if-receiver (stopped r.receiver) r _ (λ e. v)
        (λ e.
          if-receiver _ (record r { receiver = fail_transfer notified r.receiver }) _
            (λ f. fail_transfer-Sound is_format sha256 accepted notified r.receiver v) (λ f. v))

  run-Settled :
      (env : Answers) (r : Receiving)
      → Settled r.receiver
      → Settled (run_task is_format sha256 accepted env r).receiver
  unfolding run_task
  run-Settled env r v = queue-Settled r.queue
    where
      queue-Settled :
          (q : List Queued)
          → Settled
              (elim q as (λ k. Receiving) [
                | [] ↦ r
                | job ∷ rest ↦ record {
                  receiver = handle is_format sha256 accepted env job r.receiver;
                  queue = rest;
                  queued_bytes = r.queued_bytes - receive_queue_byte_length job.received;
                  queued_messages = r.queued_messages - 1;
                }
              ]).receiver
      queue-Settled [] = v
      queue-Settled (job ∷ rest) = handle-Settled env job r.receiver v

  Step-Settled :
      {r t : Receiving}
      → Step is_format sha256 accepted r t
      → Settled r.receiver
      → Settled t.receiver
  unfolding on_idle_timer on_settled
  Step-Settled {r} (arrival notified job) v = enqueue-Settled notified job r v
  Step-Settled {r} (task env) v = run-Settled env r v
  Step-Settled {r} (broken notified) v =
      fail_transfer-Sound is_format sha256 accepted notified r.receiver v
  Step-Settled {r} (idle notified) v = elim (Bool-cases r.receiver.idle_timer) [
    | inl e ↦ simp e (fail_transfer-Sound is_format sha256 accepted notified r.receiver v)
    | inr e ↦ simp e v
  ]
  Step-Settled {r} (settled removed) v = elim (Bool-cases (stopped r.receiver)) [
    | inl e ↦ simp e (final_cleanup-Sound is_format sha256 accepted removed r.receiver e v)
    | inr e ↦ simp e v
  ]

  initial-Settled : Settled initial_receiver
  unfolding lookup
  initial-Settled = record {
    weak = record {
      files = λ id st h. ground arith;
      expected = λ id st h. ground arith;
      unset = λ h. (refl, refl);
      distinct = tt;
      all_seen = λ h id e listed. ground arith;
      finished = λ h. ground (arith, h);
    };
    agreed = λ h m set. ground (arith, set);
    watched = λ h. refl;
  }

  -- Whatever events came, the invariant holds: every file has as many bytes as its digest has taken, and
  -- at most its size, is done only if it is whole with the digest that the sender gave, and is on the
  -- disk only while its identity is known; the manifest is the accepted one unless the transfer failed;
  -- and a transfer is completed only with every file of the manifest done.
  pub receiver-IsSound :
      {r : Receiving}
      → IsReachable is_format sha256 accepted r
      → IsSound is_format sha256 accepted r.receiver
  receiver-IsSound initial = initial-Settled
  receiver-IsSound (after before step) = Step-Settled step (receiver-IsSound before)
