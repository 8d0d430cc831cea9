-- ===== src/Tests.antt =====
-- Runs of the theorems at concrete inputs.
mod Receiver
mod Parsing
use p2p_transfer.Base.{
  ℕ, ◌+◌, ◌≤◌, ◌<◌, ◌≡◌, ◌↔◌, refl, true, false, none, some, List, [], ◌∷◌, Text, nat, length,
  arith,
}
use p2p_transfer.Shared.Text.{characters, utf8_byte_length, trim_to_utf8_bytes}
use p2p_transfer.Shared.Text.Lengths.{trim_to_utf8_bytes-le}
use p2p_transfer.Shared.FileNames.{units, any_unsafe, safe_file_name}
use p2p_transfer.Shared.Messages.{
  Role, sender, receiver, ClientMessage, register, connect, pake, confirm, pair_request,
  pair_accept, signal, offer, FileManifest, LeftReason,
}
use p2p_transfer.Shared.PublicManifest.{
  constant_public_manifest, redact_manifest_for_signaling, sum_sizes,
  public_pair_request_manifest_is_redacted,
}
use p2p_transfer.Shared.PublicManifest.Constant.{
  public_pair_request_manifest_is_redacted_iff, redact_manifest_for_signaling-redacted,
}
use p2p_transfer.Shared.Chunks.{
  ChunkFrame, coded, encode_chunk, decode_chunk, frame_bytes, get_uint32,
}
use p2p_transfer.Shared.Chunks.RoundTrip.{decode-encode, encode-decode}
use p2p_transfer.Shared.SignalReplay
use p2p_transfer.Shared.SignalReplay.{
  ReplayFields, SignalPayload, candidate_signal, Fragment, no_fragment, null_fragment, new_guard,
}
use p2p_transfer.Server.Policy.Traces.{count-le-one}
use p2p_transfer.Shared.SignalReplay.FirstTime.{answers, first_times, fresh-first_times}
use p2p_transfer.Shared.ControlWaiter.{ControlAckWaiter, Outcome, new_waiter, wait, fail}
use p2p_transfer.Shared.ControlWaiter.Settled
use p2p_transfer.Shared.ControlWaiter.Settled.{IsLinked, IsReachable-IsLinked}
use p2p_transfer.Shared.SignalQueue.{SignalMessageQueue, new_queue, push, pushed}
use p2p_transfer.Shared.SignalQueue.Bounded.{IsWithin, sum_bytes, push-IsWithin}
use p2p_transfer.Server.RateLimit.{record_fixed_window_hit}
use p2p_transfer.Server.RateLimit.History.{
  attempt, sweep, replay, decide, replay-decide, record_fixed_window_hit-length_le,
}
use p2p_transfer.Server.Policy.{
  Relay, apply_phase, role_allows, phase_allows, relay_allowed_for_phase, apply_relay_phase,
  session_peer_id, signaling_max_ice_candidates_per_peer,
}
use p2p_transfer.Server.Policy.Traces.{
  fresh_relay, Run, none_yet, then_relayed, Records, share, tag, request, accept, candidates,
  occurs, count, Run-Records, signal_needs_acceptance, candidates-le-limit,
}
use p2p_transfer.Server.State.{Env, ReadyState, Server}
use p2p_transfer.Server.Cleanup.{cleanup_peer, cleanup_step}
use p2p_transfer.Server.Relaying.{relay}
use p2p_transfer.Server.Admission.{static_file_within_limit}
use p2p_transfer.Server.Static.{reserve_static_response_bytes, static_max_in_flight_bytes}
use p2p_transfer.Server.Events.{initial_server, on_connection, on_frame}
use p2p_transfer.Server.Events.Invariant.{IsSound}
use p2p_transfer.Server.Events.Reachable.{
  connection, frame, initial, after, IsReachable-IsSound, cleanup_peer-reachable,
}
use p2p_transfer.Server.Events.Deliveries.{Delivery, relay-Delivery}
use p2p_transfer.Web.FileNames.{
  browser_part_candidate_name, bounded_existing_name, max_browser_output_name_bytes,
}
use p2p_transfer.Web.FileNames.Bounds.{browser_part_candidate_name-le}
use p2p_transfer.Shared.Limits.{ok, assert_transfer_manifest_within_limits}
use p2p_transfer.Shared.Limits.Accepted.{
  IsAccepted, assert_transfer_manifest_within_limits-IsAccepted,
}
use p2p_transfer.Shared.Transfer.{same_files, TransferManifest, transfer_manifest_matches_accepted}
use p2p_transfer.Shared.Transfer.Matching.{transfer_manifest_matches_accepted-same}

-- Sockets that are open and take everything.
abbrev calm : Env
calm = record {
  now = 1000;
  ready_state = λ q calls. ReadyState.open_state;
  buffered_amount = λ q calls. 0;
  send_throws = λ q calls m. false;
  close_throws = λ q calls. false;
  ping_throws = λ q calls. false;
  has_turn_rest_config = false;
  is_format = λ c. false;
  to_lower_case = λ s. s;
}

abbrev code : Text
code = units "12345678"

-- A receiver 1 that registered, and a sender 2 that connected to it in session 5.
abbrev registered_server : Server
registered_server =
    on_frame calm (on_connection calm initial_server 1 7) 1 0 (some (register code 10))

abbrev paired_server : Server
paired_server =
    on_frame calm (on_connection calm registered_server 2 8) 2 5 (some (connect code 10))

IsReachable-IsSound_example : IsSound paired_server
IsReachable-IsSound_example = IsReachable-IsSound paired_server (
    after
      (after
        (after (after initial (connection calm 1 7)) (frame calm 1 0 (some (register code 10))))
        (connection calm 2 8))
      (frame calm 2 5 (some (connect code 10))))

relay-Delivery_example :
    Delivery calm paired_server 2 5
      (pake 5 (units "share"))
      1
      (relay calm paired_server 2 5 (pake 5 (units "share")))
relay-Delivery_example = relay-Delivery calm paired_server 2 5 (pake 5 (units "share")) 1

cleanup_peer-reachable_example :
    cleanup_peer calm initial_server 1 LeftReason.closed
    ≡ cleanup_step calm (cleanup_peer calm) initial_server 1 LeftReason.closed
cleanup_peer-reachable_example =
    cleanup_peer-reachable calm initial_server 1 LeftReason.closed initial

replay-decide_example :
    replay 60000 2 [] (attempt 1 ∷ attempt 2 ∷ sweep 3 ∷ attempt 4 ∷ [])
    ≡ decide 60000 2 [] (attempt 1 ∷ attempt 2 ∷ sweep 3 ∷ attempt 4 ∷ [])
replay-decide_example =
    replay-decide 60000 2 (attempt 1 ∷ attempt 2 ∷ sweep 3 ∷ attempt 4 ∷ []) (omega arith)
      (omega arith) (omega arith)
      (
        omega arith,
        omega arith,
        (omega arith, omega arith, (omega arith, omega arith, (omega arith, omega arith, tt))),
      )

record_fixed_window_hit-length_le_example :
    length (record_fixed_window_hit (nat 1 ∷ nat 2 ∷ []) (nat 3) (nat 60000) (nat 2)).hits ≤ 2 + 1
record_fixed_window_hit-length_le_example =
    record_fixed_window_hit-length_le (nat 1 ∷ nat 2 ∷ []) (nat 3) (nat 60000) 2

abbrev accepted_past : List (Role × ClientMessage)
accepted_past =
    (receiver, pair_accept 5 (units "auth"))
    ∷ (sender, pair_request 5 constant_public_manifest (units "m"))
    ∷ (receiver, confirm 5 (units "tag"))
    ∷ (sender, confirm 5 (units "tag"))
    ∷ (receiver, pake 5 (units "share"))
    ∷ (sender, pake 5 (units "share"))
    ∷ []

abbrev after_share : Relay
after_share = apply_phase (fresh_relay 5 2 1) sender (pake 5 (units "share"))

abbrev after_shares : Relay
after_shares = apply_phase after_share receiver (pake 5 (units "share"))

abbrev after_tag : Relay
after_tag = apply_phase after_shares sender (confirm 5 (units "tag"))

abbrev after_tags : Relay
after_tags = apply_phase after_tag receiver (confirm 5 (units "tag"))

abbrev after_request : Relay
after_request = apply_phase after_tags sender (pair_request 5 constant_public_manifest (units "m"))

abbrev after_accept : Relay
after_accept = apply_phase after_request receiver (pair_accept 5 (units "auth"))

accepted-Run : Run (fresh_relay 5 2 1) accepted_past after_accept
unfolding role_allows phase_allows apply_phase fresh_relay
accepted-Run =
    then_relayed
      (then_relayed
        (then_relayed
          (then_relayed
            (then_relayed (then_relayed none_yet sender (pake 5 (units "share")) refl refl) receiver
              (pake 5 (units "share")) refl refl)
            sender (confirm 5 (units "tag")) refl refl)
          receiver (confirm 5 (units "tag")) refl refl)
        sender (pair_request 5 constant_public_manifest (units "m")) refl refl)
      receiver (pair_accept 5 (units "auth")) refl refl

offer_allowed : phase_allows after_accept sender (signal 5 offer (units "sdp")) ≡ true
unfolding phase_allows apply_phase fresh_relay
offer_allowed = refl

signal_needs_acceptance_example :
    (occurs accept receiver accepted_past ≡ true)
    × (occurs request sender accepted_past ≡ true)
    × (occurs tag sender accepted_past ≡ true)
    × (occurs tag receiver accepted_past ≡ true)
    × (occurs share sender accepted_past ≡ true)
    × (occurs share receiver accepted_past ≡ true)
signal_needs_acceptance_example =
    signal_needs_acceptance 5 2 1 sender (signal 5 offer (units "sdp")) accepted-Run refl
      offer_allowed

Run-Records_example : Records after_accept accepted_past
Run-Records_example = Run-Records 5 2 1 accepted-Run

candidates-le-limit_example :
    count candidates sender accepted_past ≤ signaling_max_ice_candidates_per_peer
candidates-le-limit_example = candidates-le-limit 5 2 1 sender accepted-Run

count-le-one_example : count share sender accepted_past ≤ 1
count-le-one_example = count-le-one 5 2 1 sender share accepted-Run refl

public_pair_request_manifest_is_redacted_iff_example :
    (public_pair_request_manifest_is_redacted constant_public_manifest ≡ true)
    ↔ (constant_public_manifest ≡ constant_public_manifest)
public_pair_request_manifest_is_redacted_iff_example =
    public_pair_request_manifest_is_redacted_iff constant_public_manifest

abbrev one_file : FileManifest
one_file = record {
  files = record { id = some (nat 0); name = units "a.txt"; size = nat 5; mime = none } ∷ [];
  file_count = nat 1;
  total_bytes = nat 5;
}

one_file_redacted : redact_manifest_for_signaling one_file ≡ some constant_public_manifest
unfolding redact_manifest_for_signaling sum_sizes
one_file_redacted = refl

redact_manifest_for_signaling-redacted_example :
    public_pair_request_manifest_is_redacted constant_public_manifest ≡ true
redact_manifest_for_signaling-redacted_example =
    redact_manifest_for_signaling-redacted one_file constant_public_manifest one_file_redacted

one_file_allowed : assert_transfer_manifest_within_limits (λ c. false) one_file ≡ ok tt
unfolding assert_transfer_manifest_within_limits any_unsafe characters safe_file_name
one_file_allowed = refl

assert_transfer_manifest_within_limits-IsAccepted_example : IsAccepted (λ c. false) one_file
assert_transfer_manifest_within_limits-IsAccepted_example =
    assert_transfer_manifest_within_limits-IsAccepted (λ c. false) one_file one_file_allowed

abbrev one_transfer : TransferManifest
one_transfer = record { files = one_file.files; total_bytes = nat 5 }

one_transfer_allowed : transfer_manifest_matches_accepted (λ c. false) one_file one_transfer ≡ true
unfolding transfer_manifest_matches_accepted assert_transfer_manifest_within_limits any_unsafe
    characters safe_file_name same_files
one_transfer_allowed = refl

transfer_manifest_matches_accepted-same_example :
    (one_transfer.files ≡ one_file.files) × (one_transfer.total_bytes ≡ one_file.total_bytes)
transfer_manifest_matches_accepted-same_example =
    transfer_manifest_matches_accepted-same (λ c. false) one_file one_transfer one_transfer_allowed

decode-encode_example :
    (encode_chunk (nat 3) (nat 70000) (9 ∷ 8 ∷ []) ≡ coded (frame_bytes 3 70000 (9 ∷ 8 ∷ [])))
    × (decode_chunk (frame_bytes 3 70000 (9 ∷ 8 ∷ []))
        ≡ coded (record { file_id = 3; chunk_seq = 70000; payload = 9 ∷ 8 ∷ [] }))
decode-encode_example = decode-encode 3 70000 (9 ∷ 8 ∷ []) (omega arith) (omega arith) (omega arith)

abbrev small_frame : List ℕ
small_frame = 3 ∷ 0 ∷ 0 ∷ 0 ∷ 7 ∷ 0 ∷ 0 ∷ 0 ∷ 1 ∷ 42 ∷ []

abbrev small_chunk : ChunkFrame
small_chunk = record { file_id = 3; chunk_seq = 7; payload = 42 ∷ [] }

small_frame_decoded : decode_chunk small_frame ≡ coded small_chunk
unfolding decode_chunk get_uint32
small_frame_decoded = refl

encode-decode_example : encode_chunk (nat 3) (nat 7) (42 ∷ []) ≡ coded small_frame
encode-decode_example =
    encode-decode small_frame small_chunk
      (
        omega arith,
        (
          omega arith,
          (
            omega arith,
            (
              omega arith,
              (
                omega arith,
                (omega arith, (omega arith, (omega arith, (omega arith, (omega arith, tt))))),
              ),
            ),
          ),
        ),
      )
      small_frame_decoded

abbrev candidate_with : Fragment → SignalPayload
candidate_with username_fragment = candidate_signal (record {
  candidate = units "c";
  sdp_mid = none;
  sdp_m_line_index = none;
  username_fragment = username_fragment;
})

abbrev some_signals : List SignalPayload
some_signals =
    SignalReplay.offer (units "a")
    ∷ candidate_with no_fragment
    ∷ SignalReplay.offer (units "b")
    ∷ candidate_with null_fragment
    ∷ candidate_with no_fragment
    ∷ []

fresh-first_times_example :
    answers (λ fields. fields.candidate) (new_guard true) some_signals
    ≡ first_times (λ fields. fields.candidate) true [] some_signals
fresh-first_times_example = fresh-first_times (λ fields. fields.candidate) true some_signals

abbrev failed_waiter : ControlAckWaiter
failed_waiter = fail (wait (new_waiter 60000) (units "all-done-ok") none).0

IsReachable-IsLinked_example :
    IsLinked failed_waiter
    × (failed_waiter.failed ≡ true
        → (p : ℕ) → p < failed_waiter.made
        → (o : Outcome) × (failed_waiter.settled p ≡ o ∷ []))
IsReachable-IsLinked_example = IsReachable-IsLinked failed_waiter (
    Settled.after (Settled.after (Settled.fresh 60000) (Settled.waited (units "all-done-ok") none))
      Settled.broken_off)

abbrev one_signal : SignalMessageQueue
one_signal = record {
  messages = units "offer" ∷ [];
  buffered_bytes = 5;
  max_messages = 300;
  max_bytes = none;
}

empty_queue-IsWithin : IsWithin (new_queue 300 none)
unfolding new_queue sum_bytes
empty_queue-IsWithin = record { counted = refl; few = omega arith; light = refl }

offer_pushed : push (new_queue 300 none) (some (units "offer")) ≡ pushed one_signal
unfolding push new_queue utf8_byte_length
offer_pushed = refl

push-IsWithin_example : IsWithin one_signal × (one_signal.messages ≡ units "offer" ∷ [])
unfolding new_queue
push-IsWithin_example =
    push-IsWithin (new_queue 300 none) one_signal (units "offer") empty_queue-IsWithin offer_pushed

part_tried : browser_part_candidate_name (units "a.part") 0 ≡ some (units "a.part")
unfolding browser_part_candidate_name bounded_existing_name utf8_byte_length
part_tried = refl

browser_part_candidate_name-le_example :
    utf8_byte_length (units "a.part") ≤ max_browser_output_name_bytes
browser_part_candidate_name-le_example =
    browser_part_candidate_name-le (units "a.part") (units "a.part") 0 part_tried

trim_to_utf8_bytes-le_example : utf8_byte_length (trim_to_utf8_bytes (units "abcdef") 3) ≤ 3
trim_to_utf8_bytes-le_example = trim_to_utf8_bytes-le (units "abcdef") 3

reserved : reserve_static_response_bytes 0 50 ≡ some 50
unfolding reserve_static_response_bytes static_file_within_limit
reserved = refl
