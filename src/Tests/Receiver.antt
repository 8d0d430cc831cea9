-- ===== src/Tests/Receiver.antt =====
-- A transfer of one file of two bytes, and runs of the theorems on it.
use p2p_transfer.Base.{
  ℕ, ◌+◌, ◌≡◌, refl, Bool, true, false, none, some, List, [], ◌∷◌, Text, nat, length, arith, zero,
  suc,
}
use p2p_transfer.Shared.FileNames.{units}
use p2p_transfer.Shared.Messages.{FileManifest, FileManifestEntry}
use p2p_transfer.Shared.Transfer.{TransferManifest}
use p2p_transfer.Shared.Chunks.{frame_bytes}
use p2p_transfer.Shared.Control.{ControlMessage, manifest, file_begin, file_end, all_done}
use p2p_transfer.Shared.Control.Printed.{value_of}
use p2p_transfer.Shared.Json.{Value}
use p2p_transfer.Base.{lookup, insert, nat_eq}
use p2p_transfer.Shared.Text.{
  utf8_byte_length, characters, join, trim, drop_while, drop_while_end, is_white_space, lower_ascii,
}
use p2p_transfer.Shared.FileNames.{
  any_unsafe, is_unsafe_in_manifest, safe_file_name, clean, leaf_name, until_separator,
  keep_portable, is_unsafe_portable, is_unusable, make_visible, unreserve, is_windows_reserved_name,
  before,
}
use p2p_transfer.Shared.Limits.{
  assert_transfer_manifest_within_limits, assert_manifest_within_limits, check_files, check_id,
  assert_file_within_limits, name_within_limits, check_size, mime_within_limits, add_size,
  check_count, check_total, check_sequence,
}
use p2p_transfer.Shared.Transfer.{transfer_manifest_matches_accepted, same_files}
use p2p_transfer.Shared.Chunks.{decode_chunk, get_uint32, uint32_bytes}
use p2p_transfer.Shared.Control.{
  assert_control_message, type_of, control_type, assert_fields, assert_transfer_manifest,
  manifest_entries, manifest_entry, is_sha256,
}
use p2p_transfer.Cli.Receiver.{
  reset_receive_timeout, fail_transfer, await, meanwhile, throw_if_receive_stopped, file_of,
  update_file, map_files,
}
use p2p_transfer.Cli.Receiver.Tasks.{
  send, send_control, maybe_finalize, finalize, finalizing_over, publish_file, require_digest,
  check_published, maybe_resolve_done, resolve_done, all_files_done,
}
use p2p_transfer.Cli.Receiver.Handlers.{
  handle, caught, on_message, on_manifest, matches_accepted, expect_files, on_file_begin, new_file,
  on_file_end, on_all_done, control_task, bulk_task,
}
use p2p_transfer.Cli.Receiver.Events.{receive_queue_byte_length}
use p2p_transfer.Cli.Receiver.{Await, nothing, control, bulk, text, array_buffer}
use p2p_transfer.Cli.Receiver.{Receiver, initial_receiver, failure_cleaned}
use p2p_transfer.Cli.Receiver.Tasks.{Answers}
use p2p_transfer.Cli.Receiver.Events.{
  Receiving, initial_receiving, enqueue_receive_task, run_task, IsReachable, initial, after,
  arrival, task,
}
use p2p_transfer.Cli.Receiver.Outcomes.{IsDeliveredTransfer, completed-IsDeliveredTransfer}
use p2p_transfer.Cli.Receiver.Reachable.{receiver-IsSound}
use p2p_transfer.Cli.Receiver.Queue.{IsAccounted, IsReachable-IsAccounted}
use p2p_transfer.Cli.Receiver.Triples.{IsSound}

abbrev no_format : ℕ → Bool
no_format c = false

abbrev repeated : ℕ → ℕ → Text
repeated zero c = []
repeated (suc n) c = c ∷ repeated n c

-- A digest that tells lengths below 6 apart.
abbrev toy_sha256 : List ℕ → Text
toy_sha256 bytes = repeated 64 (97 + length bytes)

abbrev quiet {ℓ} : {A : Type ℓ} → A → Await A
quiet a = record { during = nothing; answer = some a }

abbrev one_file : FileManifestEntry
one_file = record { id = some (nat 0); name = units "a"; size = nat 2; mime = none }

abbrev one_manifest : TransferManifest
one_manifest = record { files = one_file ∷ []; total_bytes = nat 2 }

abbrev user_manifest : FileManifest
user_manifest = record { files = one_file ∷ []; file_count = nat 1; total_bytes = nat 2 }

abbrev answers : Value → Answers
answers opened = record {
  opened = quiet opened;
  payload = quiet (7 ∷ 8 ∷ []);
  reserved = λ size. quiet (record { resumed = []; within = omega arith });
  reopened = quiet tt;
  sealed_ready = quiet tt;
  written = quiet tt;
  stream_ended = quiet tt;
  part_removed = quiet tt;
  on_disk_sha256 = quiet (toy_sha256 (7 ∷ 8 ∷ []));
  sealed_file_ok = quiet tt;
  published_part = quiet tt;
  published_sha256 = quiet (toy_sha256 (7 ∷ 8 ∷ []));
  withdrawn = quiet tt;
  sealed_all_done_ok = quiet tt;
  sends = λ message. true;
  notified = true;
}

abbrev Events : Type 0
Events = Receiving

abbrev step_control : ControlMessage → Receiving → Receiving
step_control m r =
    run_task no_format toy_sha256 (some user_manifest) (answers (value_of m))
      (enqueue_receive_task true (record { channel = control; received = text (units "sealed") }) r)

abbrev step_bulk : Receiving → Receiving
step_bulk r = run_task no_format toy_sha256 (some user_manifest) (answers none) (
    enqueue_receive_task true
      (record { channel = bulk; received = array_buffer (frame_bytes 0 0 (1 ∷ 2 ∷ 3 ∷ [])) }) r)

abbrev Reached : Receiving → Type 0
Reached = IsReachable no_format toy_sha256 (some user_manifest)

reach_control : (m : ControlMessage) (r : Receiving) → Reached r → Reached (step_control m r)
reach_control m r h = after (after h (arrival true _)) (task (answers (value_of m)))

reach_bulk : (r : Receiving) → Reached r → Reached (step_bulk r)
reach_bulk r h = after (after h (arrival true _)) (task (answers none))

abbrev with_manifest : Receiving
with_manifest = step_control (manifest one_manifest) initial_receiving

abbrev begun : Receiving
begun = step_control (file_begin 0 (units "a") 2) with_manifest

abbrev with_chunk : Receiving
with_chunk = step_bulk begun

abbrev ended : Receiving
ended = step_control (file_end 0 (toy_sha256 (7 ∷ 8 ∷ []))) with_chunk

abbrev finished : Receiving
finished = step_control all_done ended

finished-Reached : Reached finished
finished-Reached = reach_control all_done ended (
    reach_control (file_end 0 (toy_sha256 (7 ∷ 8 ∷ []))) with_chunk (
      reach_bulk begun (
        reach_control (file_begin 0 (units "a") 2) with_manifest
          (reach_control (manifest one_manifest) initial_receiving initial))))

with_manifest_going : with_manifest.receiver.failed ≡ false
unfolding run_task enqueue_receive_task receive_queue_byte_length utf8_byte_length handle caught
    reset_receive_timeout fail_transfer await meanwhile throw_if_receive_stopped on_message
    on_manifest matches_accepted expect_files on_file_begin new_file send_control send on_file_end
    file_of update_file map_files maybe_finalize finalize finalizing_over publish_file
    require_digest check_published maybe_resolve_done resolve_done all_files_done on_all_done
    control_task bulk_task assert_control_message type_of control_type assert_fields
    assert_transfer_manifest manifest_entries manifest_entry is_sha256 value_of
    assert_transfer_manifest_within_limits assert_manifest_within_limits check_files check_id
    assert_file_within_limits name_within_limits any_unsafe is_unsafe_in_manifest characters
    safe_file_name clean leaf_name until_separator keep_portable is_unsafe_portable join is_unusable
    make_visible unreserve is_windows_reserved_name before trim drop_while drop_while_end
    is_white_space lower_ascii check_size mime_within_limits add_size check_count check_total
    check_sequence transfer_manifest_matches_accepted same_files lookup insert frame_bytes
    decode_chunk get_uint32 uint32_bytes
with_manifest_going = refl

begun_going : begun.receiver.failed ≡ false
unfolding run_task enqueue_receive_task receive_queue_byte_length utf8_byte_length handle caught
    reset_receive_timeout fail_transfer await meanwhile throw_if_receive_stopped on_message
    on_manifest matches_accepted expect_files on_file_begin new_file send_control send on_file_end
    file_of update_file map_files maybe_finalize finalize finalizing_over publish_file
    require_digest check_published maybe_resolve_done resolve_done all_files_done on_all_done
    control_task bulk_task assert_control_message type_of control_type assert_fields
    assert_transfer_manifest manifest_entries manifest_entry is_sha256 value_of
    assert_transfer_manifest_within_limits assert_manifest_within_limits check_files check_id
    assert_file_within_limits name_within_limits any_unsafe is_unsafe_in_manifest characters
    safe_file_name clean leaf_name until_separator keep_portable is_unsafe_portable join is_unusable
    make_visible unreserve is_windows_reserved_name before trim drop_while drop_while_end
    is_white_space lower_ascii check_size mime_within_limits add_size check_count check_total
    check_sequence transfer_manifest_matches_accepted same_files lookup insert frame_bytes
    decode_chunk get_uint32 uint32_bytes
begun_going = refl

finished_completed : finished.receiver.completed ≡ true
unfolding run_task enqueue_receive_task receive_queue_byte_length utf8_byte_length handle caught
    reset_receive_timeout fail_transfer await meanwhile throw_if_receive_stopped on_message
    on_manifest matches_accepted expect_files on_file_begin new_file send_control send on_file_end
    file_of update_file map_files maybe_finalize finalize finalizing_over publish_file
    require_digest check_published maybe_resolve_done resolve_done all_files_done on_all_done
    control_task bulk_task assert_control_message type_of control_type assert_fields
    assert_transfer_manifest manifest_entries manifest_entry is_sha256 value_of
    assert_transfer_manifest_within_limits assert_manifest_within_limits check_files check_id
    assert_file_within_limits name_within_limits any_unsafe is_unsafe_in_manifest characters
    safe_file_name clean leaf_name until_separator keep_portable is_unsafe_portable join is_unusable
    make_visible unreserve is_windows_reserved_name before trim drop_while drop_while_end
    is_white_space lower_ascii check_size mime_within_limits add_size check_count check_total
    check_sequence transfer_manifest_matches_accepted same_files lookup insert frame_bytes
    decode_chunk get_uint32 uint32_bytes
finished_completed = refl

completed-IsDeliveredTransfer_example :
    IsDeliveredTransfer no_format toy_sha256 (some user_manifest) finished.receiver
completed-IsDeliveredTransfer_example =
    completed-IsDeliveredTransfer no_format toy_sha256 (some user_manifest) finished-Reached
      finished_completed

receiver-IsSound_example : IsSound no_format toy_sha256 (some user_manifest) finished.receiver
receiver-IsSound_example =
    receiver-IsSound no_format toy_sha256 (some user_manifest) finished-Reached

-- One message waits in the queue.
abbrev waiting : Receiving
waiting =
    enqueue_receive_task true (record { channel = control; received = text (units "sealed") }) begun

begun-Reached : Reached begun
begun-Reached =
    reach_control (file_begin 0 (units "a") 2) with_manifest
      (reach_control (manifest one_manifest) initial_receiving initial)

IsReachable-IsAccounted_example : IsAccounted waiting
IsReachable-IsAccounted_example =
    IsReachable-IsAccounted no_format toy_sha256 (some user_manifest) (
      after begun-Reached
        (arrival true (record { channel = control; received = text (units "sealed") })))

-- The channel ends when the file is published already.
-- A file that is whole, and a failure with its final cleanup while it is being published.
abbrev whole : Receiver
whole = record initial_receiver {
  files =
      (
        0,
        record {
          size = 2;
          published = false;
          present = false;
          hashed = 7 ∷ 8 ∷ [];
          bytes = 2;
          expected_sha256 = some (toy_sha256 (7 ∷ 8 ∷ []));
          expected_seq = 1;
          done = false;
          finalizing = false;
        },
      )
      ∷ [];
}

abbrev interrupted : Answers
interrupted = record (answers none) {
  published_part = record { during = failure_cleaned true (λ id. true); answer = some tt };
}
