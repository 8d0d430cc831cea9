-- ===== src/Cli/Receiver/Handlers.antt =====
-- cli/transfer.ts: what `receiveFiles` does with a control message, with a chunk, and with the events
-- of its channels and timers.
use p2p_transfer.Base.{
  ℕ, ◌+◌, ◌-◌, ◌/◌, Bool, true, false, not, ◌&&◌, ◌||◌, Option, none, some, List, [], ◌∷◌, ◌++◌,
  Text, same_text, nat, ltb, leb, ◌==◌, if◌then◌else◌, length, Map, lookup, insert, size, nat_eq,
}
use p2p_transfer.Shared.Messages.{FileManifest, FileManifestEntry}
use p2p_transfer.Shared.Limits.{byte_id, assert_manifest_within_limits, assert_file_within_limits}
use p2p_transfer.Shared.Transfer.{
  TransferManifest, passes, same_number, transfer_manifest_matches_accepted,
}
use p2p_transfer.Shared.Chunks.{ChunkFrame, Coded, decode_chunk}
use p2p_transfer.Shared.Control.{
  ControlMessage, manifest, file_begin, ready, restart, file_end, all_done, Checked, refused,
  returned, offered_manifest, is_nothing, assert_control_message,
}
use p2p_transfer.Cli.Receiver.{
  FileState, Incoming, array_buffer, byte_array, control, bulk, Queued, Receiver, stopped,
  reset_receive_timeout, fail_transfer, thrown, value, Task, ◌>>=◌, ◌>>◌, throw, require, found_in,
  current, change, await, throw_if_receive_stopped, file_of, update_file,
}
use p2p_transfer.Cli.Receiver.Tasks.{
  chunk_size, Reservation, Answers, send_control, maybe_resolve_done, maybe_finalize,
}

-- `toBytes`
abbrev pub to_bytes : Incoming → Option (List ℕ)
to_bytes (array_buffer bytes) = some bytes
to_bytes (byte_array bytes) = some bytes
to_bytes _ = none

-- The loop that fills `expectedFiles`. A file of an accepted message has its identifier.
unfoldable pub expect_files :
    List FileManifestEntry → Map ℕ FileManifestEntry → Map ℕ FileManifestEntry
expect_files [] expected = expected
expect_files (file ∷ files) expected = elim file.id [
  | none ↦ expect_files files expected
  | some id ↦ elim (byte_id id) [
    | none ↦ expect_files files expected
    | some n ↦ expect_files files (insert n file expected)
  ]
]

-- Math.ceil
abbrev pub chunks_of : ℕ → ℕ
chunks_of size = (size + (chunk_size - 1)) / chunk_size

unfoldable pub new_file : (size : ℕ) → Reservation size → FileState
new_file size reservation = record {
  size = size;
  published = false;
  present = false;
  hashed = reservation.resumed;
  bytes = length reservation.resumed;
  expected_sha256 = none;
  expected_seq =
      if length reservation.resumed == size
      then chunks_of size
      else length reservation.resumed / chunk_size;
  done = false;
  finalizing = false;
}

abbrev pub decoded : Coded ChunkFrame → Option ChunkFrame
decoded (Coded.coded frame) = some frame
decoded (Coded.thrown e) = none

abbrev pub message_of : Checked ControlMessage → Option ControlMessage
message_of (refused e) = none
message_of (returned m) = some m

-- A file that gets more chunks.
abbrev pub takes_chunks : FileState → Bool
takes_chunks st = not (st.done || (not (is_nothing st.expected_sha256) && leb st.size st.bytes))

abbrev pub is_manifest_set : Receiver → Bool
is_manifest_set s = not (is_nothing s.manifest)

-- The parameters of the module: the class Cf of Unicode, the hash, and the manifest that the user has
-- accepted.
module _ (is_format : ℕ → Bool) (sha256 : List ℕ → Text) (accepted : Option FileManifest) where
  unfoldable pub matches_accepted : TransferManifest → Bool
  matches_accepted m = elim accepted [
    | none ↦ true
    | some offered ↦ transfer_manifest_matches_accepted is_format offered m
  ]

  unfoldable pub on_manifest : TransferManifest → Task (Unit {0})
  unfolding matches_accepted expect_files
  on_manifest m = do
    s ← current
    require (is_nothing s.manifest)
    change (λ s. record s {
      manifest = some m;
      expected_files = expect_files m.files s.expected_files;
    })
    require (passes (assert_manifest_within_limits is_format (offered_manifest m)))
    require (matches_accepted m)
    change (λ s. record s { total_bytes = m.total_bytes })

  unfoldable pub on_file_begin : Answers → ℕ → Text → ℕ → Task (Unit {0})
  unfolding await new_file send_control
  on_file_begin env id name size = do
    s ← current
    require (is_manifest_set s)
    expected ← found_in (lookup id s.expected_files)
    require (is_nothing (lookup id s.files))
    require (same_text expected.name name && same_number expected.size (nat size))
    require (passes (assert_file_within_limits is_format name (nat size)))
    reservation ← await (env.reserved size)
    change (λ s. record s { files = insert id (new_file size reservation) s.files })
    let resumed = length reservation.resumed
    let answer =
        if ltb 0 resumed
        then ready id (some resumed) (some (sha256 reservation.resumed))
        else ready id none none
    send_control env env.sealed_ready answer

  unfoldable pub on_restart : Answers → ℕ → Task (Unit {0})
  unfolding await file_of update_file send_control
  on_restart env id = do
    st ← file_of id
    require (not (st.done || not (is_nothing st.expected_sha256)))
    await env.reopened
    update_file id (λ st. record st { hashed = []; bytes = 0; expected_seq = 0 })
    send_control env env.sealed_ready (ready id none none)

  unfoldable pub on_file_end : Answers → ℕ → Text → Task (Unit {0})
  unfolding file_of update_file maybe_finalize maybe_resolve_done
  on_file_end env id digest = do
    st ← file_of id
    require (is_nothing st.expected_sha256)
    update_file id (λ st. record st { expected_sha256 = some digest })
    maybe_finalize sha256 env id
    maybe_resolve_done env

  unfoldable pub on_all_done : Answers → Task (Unit {0})
  unfolding maybe_resolve_done
  on_all_done env = do
    s ← current
    require (is_manifest_set s)
    require (not s.all_done_seen)
    require (size s.files == size s.expected_files)
    change (λ s. record s { all_done_seen = true })
    maybe_resolve_done env

  unfoldable pub on_message : Answers → ControlMessage → Task (Unit {0})
  unfolding on_manifest on_file_begin on_restart on_file_end on_all_done
  on_message env (manifest m) = on_manifest m
  on_message env (file_begin id name size) = on_file_begin env id name size
  on_message env (restart id) = on_restart env id
  on_message env (file_end id digest) = on_file_end env id digest
  on_message env all_done = on_all_done env
  on_message env _ = throw

  unfoldable pub control_task : Answers → Task (Unit {0})
  unfolding await throw_if_receive_stopped on_message
  control_task env = do
    opened ← await env.opened
    message ← found_in (message_of (assert_control_message is_format opened))
    throw_if_receive_stopped
    on_message env message

  unfoldable pub bulk_task : Answers → Incoming → Task (Unit {0})
  unfolding await file_of update_file throw_if_receive_stopped maybe_finalize maybe_resolve_done
  bulk_task env received = do
    bytes ← found_in (to_bytes received)
    frame ← found_in (decoded (decode_chunk bytes))
    st ← file_of frame.file_id
    require (takes_chunks st)
    require (frame.chunk_seq == st.expected_seq)
    payload ← await env.payload
    throw_if_receive_stopped
    now ← file_of frame.file_id
    require (not (length payload == 0))
    require (leb (now.bytes + length payload) now.size)
    update_file frame.file_id (λ st. record st {
      expected_seq = st.expected_seq + 1;
      hashed = st.hashed ++ payload;
      bytes = st.bytes + length payload;
    })
    change (λ s. record s { transferred_bytes = s.transferred_bytes + length payload })
    await env.written
    maybe_finalize sha256 env frame.file_id
    maybe_resolve_done env

  -- The `try` of `handleControlMessage` and of `handleBulkMessage`.
  unfoldable pub caught : Answers → Task (Unit {0}) → Receiver → Receiver
  unfolding fail_transfer
  caught env task s = elim (task s) [ thrown t ↦ fail_transfer env.notified t | value u t ↦ t ]

  abbrev pub task_of : Answers → Queued → Task (Unit {0})
  task_of env job = elim job.channel [
    | control ↦ control_task env
    | bulk ↦ bulk_task env job.received
  ]

  unfoldable pub handle : Answers → Queued → Receiver → Receiver
  unfolding caught control_task bulk_task reset_receive_timeout
  handle env job s = if stopped s then s else caught env (task_of env job) (reset_receive_timeout s)
