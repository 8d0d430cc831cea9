-- ===== src/Cli/Receiver/Tasks.antt =====
-- cli/transfer.ts: the tasks of `receiveFiles`, on a control message and on a chunk, and the queue.
-- The end-to-end sealing and the output files answer the awaits of a task.
use p2p_transfer.Base.{
  ℕ, ◌≤◌, Bool, true, false, ◌&&◌, ◌||◌, none, some, List, [], ◌∷◌, ◌++◌, Text, same_text, ltb,
  if◌then◌else◌, length, Map, nat_eq,
}
use p2p_transfer.Shared.Json.{Value}
use p2p_transfer.Shared.Control.{ControlMessage, file_ok, all_done_ok}
use p2p_transfer.Cli.Receiver.{
  FileState, stopped, remove_published_file, Await, thrown, value, Task, ◌>>=◌, ◌>>◌, pure, throw,
  require, change, await, throw_if_receive_stopped, file_of, update_file,
}

abbrev pub chunk_size : ℕ
chunk_size = 16384

-- What `reserveOutputFile` keeps of an earlier partial file of at most `size` bytes, which it has
-- hashed.
pub record Reservation (size : ℕ) : Type 0 where
  pub resumed : List ℕ
  pub within : length resumed ≤ size

-- The answers to the awaits of one task. `sends` says whether `control.send` takes the message, and
-- `notified` whether the abort message of a failure goes out.
pub record Answers : Type 0 where
  pub opened : Await Value
  pub payload : Await (List ℕ)
  pub reserved : (size : ℕ) → Await (Reservation size)
  pub reopened : Await (Unit {0})
  pub sealed_ready : Await (Unit {0})
  pub written : Await (Unit {0})
  pub stream_ended : Await (Unit {0})
  pub part_removed : Await (Unit {0})
  pub on_disk_sha256 : Await Text
  pub sealed_file_ok : Await (Unit {0})
  pub published_part : Await (Unit {0})
  pub published_sha256 : Await Text
  pub withdrawn : Await (Unit {0})
  pub sealed_all_done_ok : Await (Unit {0})
  pub sends : ControlMessage → Bool
  pub notified : Bool

-- `control.send`
unfoldable pub send : Answers → ControlMessage → Task (Unit {0})
send env message = do
  require (env.sends message)
  change (λ s. record s { sent = s.sent ++ message ∷ [] })

unfoldable pub send_control : Answers → Await (Unit {0}) → ControlMessage → Task (Unit {0})
unfolding send await throw_if_receive_stopped
send_control env sealed message = do await sealed; throw_if_receive_stopped; send env message

-- `maybeResolveDone`
unfoldable pub all_files_done : Map ℕ FileState → Bool
all_files_done [] = true
all_files_done ((id, st) ∷ files) = st.done && all_files_done files

unfoldable pub resolve_done : Answers → Task (Unit {0})
resolve_done env = do
  change (λ s. record s { idle_timer = false })
  send_control env env.sealed_all_done_ok all_done_ok
  change (λ s. record s { completed = true })

unfoldable pub maybe_resolve_done : Answers → Task (Unit {0})
unfolding resolve_done
maybe_resolve_done env s =
    if s.all_done_seen && all_files_done s.files then resolve_done env s else value tt s

-- A digest that is not the expected one: the rest of the exception's path, and the exception.
unfoldable pub require_digest : Text → Text → Task (Unit {0}) → Task (Unit {0})
require_digest actual expected cleanup s =
    if same_text actual expected then value tt s else (cleanup >> throw) s

-- `cleanupPublishedAfterFailure`, which goes on when the removal fails.
unfoldable pub cleanup_published_after_failure : Answers → ℕ → Task (Unit {0})
cleanup_published_after_failure env id s = elim (await env.withdrawn s) [
  | thrown t ↦ value tt t
  | value u t ↦ update_file id (remove_published_file true) t
]

unfoldable pub check_published : Answers → ℕ → Task (Unit {0})
check_published env id s =
    if stopped s then (cleanup_published_after_failure env id >> throw) s else value tt s

module _ (sha256 : List ℕ → Text) where
  -- `maybeFinalize` after its first test, inside the `try`.
  unfoldable pub publish_file : Answers → ℕ → Text → Task (Unit {0})
  publish_file env id expected = do
    await env.stream_ended
    throw_if_receive_stopped
    st ← file_of id
    require_digest (sha256 st.hashed) expected (await env.part_removed)
    on_disk ← await env.on_disk_sha256
    throw_if_receive_stopped
    require_digest on_disk expected (await env.part_removed)
    await env.sealed_file_ok
    throw_if_receive_stopped
    await env.published_part
    update_file id (λ st. record st { published = true; present = true })
    check_published env id
    published ← await env.published_sha256
    check_published env id
    require_digest published expected (cleanup_published_after_failure env id)
    send env (file_ok id)
    update_file id (λ st. record st { done = true })

  -- The `catch` of `maybeFinalize`.
  unfoldable pub finalizing_over : ℕ → Task (Unit {0}) → Task (Unit {0})
  finalizing_over id task s = elim (task s) [
    | thrown t ↦ (update_file id (λ st. record st { finalizing = false }) >> throw) t
    | value u t ↦ value u t
  ]

  unfoldable pub finalize : Answers → ℕ → Text → Task (Unit {0})
  finalize env id expected = do
    update_file id (λ st. record st { finalizing = true })
    finalizing_over id (publish_file env id expected)

  abbrev pub waits_for_more : FileState → Bool
  waits_for_more st = st.done || st.finalizing || ltb st.bytes st.size

  unfoldable pub maybe_finalize : Answers → ℕ → Task (Unit {0})
  maybe_finalize env id = do
    st ← file_of id
    elim st.expected_sha256 [
      | none ↦ pure tt
      | some expected ↦ if waits_for_more st then pure tt else finalize env id expected
    ]
