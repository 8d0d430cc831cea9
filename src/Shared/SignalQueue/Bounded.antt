-- ===== src/Shared/SignalQueue/Bounded.antt =====
-- shared/signal-queue.ts: the queue counts its bytes and keeps its limits.
use p2p_transfer.Base.{
  ℕ, ◌+◌, ◌≤◌, ◌≡◌, sym, ap, ◌∙◌, false, some, List, [], ◌∷◌, ◌++◌, Text, length, length-append,
  arith,
}
use p2p_transfer.Shared.Text.{utf8_byte_length}
use p2p_transfer.Shared.SignalQueue.{SignalMessageQueue, pushed, exceeds, push}

unfoldable pub sum_bytes : List Text → ℕ
sum_bytes [] = 0
sum_bytes (m ∷ ms) = utf8_byte_length m + sum_bytes ms

sum_bytes-append : (ms ns : List Text) → sum_bytes (ms ++ ns) ≡ sum_bytes ms + sum_bytes ns
unfolding sum_bytes
sum_bytes-append [] ns = omega arith
sum_bytes-append (m ∷ ms) ns = omega (arith, sum_bytes-append ms ns)

one_sum : (m : Text) → sum_bytes (m ∷ []) ≡ utf8_byte_length m
unfolding sum_bytes
one_sum m = omega arith

pub record IsWithin (queue : SignalMessageQueue) : Type 0 where
  pub counted : queue.buffered_bytes ≡ sum_bytes queue.messages
  pub few : length queue.messages ≤ queue.max_messages
  pub light : exceeds queue.buffered_bytes queue.max_bytes ≡ false

-- For a queue within its limits, a push that succeeds adds the message at the end, keeps the count of the bytes and stays within
-- both limits.
pub push-IsWithin :
    (queue next : SignalMessageQueue) (message : Text)
    → IsWithin queue
    → push queue (some message) ≡ pushed next
    → IsWithin next × (next.messages ≡ queue.messages ++ message ∷ [])
unfolding push
push-IsWithin queue next message v h =
    let kept : next.messages ≡ queue.messages ++ message ∷ [] = ground arith in
    let bytes : next.buffered_bytes ≡ queue.buffered_bytes + utf8_byte_length message =
      ground arith in
    let added = sum_bytes-append queue.messages (message ∷ []) in
    let longer = length-append queue.messages (message ∷ []) in
    (
      record {
        counted =
            bytes ∙ omega (arith, v.counted, added, one_sum message) ∙ ap sum_bytes (sym kept);
        few = ground (arith, longer);
        light = ground arith;
      },
      kept,
    )
