-- ===== src/Cli/Receiver.antt =====
-- cli/transfer.ts: the state of `receiveFiles`, and what other callbacks do to it while one of its
-- tasks waits. The tasks of the receive queue run one after the other.
pub mod Tasks
pub mod Handlers
pub mod Events
pub mod Triples
pub mod Steps
pub mod Keeping
pub mod Primitives
pub mod Changes
pub mod Verifying
pub mod Withdrawing
pub mod Publishing
pub mod Completing
pub mod Opening
pub mod Beginning
pub mod Handling
pub mod Receiving
pub mod Reachable
pub mod Outcomes
pub mod Queue
use p2p_transfer.Base.{
  ℕ, ◌+◌, ◌-◌, ◌*◌, ◌≤◌, Bool, true, false, not, ◌&&◌, ◌||◌, Option, none, some, List, [], ◌∷◌,
  ◌++◌, Text, Number, nat, leb, ◌==◌, if◌then◌else◌, length, Map, lookup, nat_eq,
}
use p2p_transfer.Shared.Text.{utf8_byte_length}
use p2p_transfer.Shared.Messages.{FileManifestEntry}
use p2p_transfer.Shared.Transfer.{TransferManifest}
use p2p_transfer.Shared.Control.{ControlMessage, abort_control_message}

-- `ReceiveState`, without the paths and the identities of the partial file. `hashed` are the bytes that
-- `hash` has taken, `published` says whether `publishedIdentity` is set, and `present` whether
-- the published file is on the disk.
pub record FileState : Type 0 where
  pub size : ℕ
  pub published : Bool
  pub present : Bool
  pub hashed : List ℕ
  pub bytes : ℕ
  pub expected_sha256 : Option Text
  pub expected_seq : ℕ
  pub done : Bool
  pub finalizing : Bool

-- The data of an event of a channel.
pub data Incoming : Type 0 where
  text : Text → Incoming
  array_buffer : List ℕ → Incoming
  byte_array : List ℕ → Incoming
  blob : (size : Option ℕ) → Incoming
  other : Incoming

pub data Channel : Type 0 where
  control bulk : Channel

-- A task of the queue: the channel of its event and the data.
pub record Queued : Type 0 where
  pub channel : Channel
  pub received : Incoming

-- `sent` are the messages that `control.send` took.
pub record Receiver : Type 0 where
  pub files : Map ℕ FileState
  pub manifest : Option TransferManifest
  pub expected_files : Map ℕ FileManifestEntry
  pub total_bytes : Number
  pub transferred_bytes : ℕ
  pub failed : Bool
  pub completed : Bool
  pub all_done_seen : Bool
  pub idle_timer : Bool
  pub attached : Bool
  pub sent : List ControlMessage

-- The state after the first `resetReceiveTimeout`.
abbrev pub initial_receiver : Receiver
initial_receiver = record {
  files = [];
  manifest = none;
  expected_files = [];
  total_bytes = nat 0;
  transferred_bytes = 0;
  failed = false;
  completed = false;
  all_done_seen = false;
  idle_timer = true;
  attached = true;
  sent = [];
}

abbrev pub stopped : Receiver → Bool
stopped s = s.failed || s.completed

unfoldable pub reset_receive_timeout : Receiver → Receiver
reset_receive_timeout s = record s { idle_timer = not (stopped s) }

-- `notified` says whether the abort message could be sealed and sent.
unfoldable pub fail_transfer : Bool → Receiver → Receiver
fail_transfer notified s =
    let told = if notified then s.sent ++ abort_control_message tt ∷ [] else s.sent in
    let failing = record s { failed = true; idle_timer = false; attached = false; sent = told } in
    if stopped s then s else failing

unfoldable pub map_files : (ℕ → FileState → FileState) → Map ℕ FileState → Map ℕ FileState
map_files f [] = []
map_files f ((id, st) ∷ files) = (id, f id st) ∷ map_files f files

-- `removePublishedFile`, which a file system that refuses the removal ends with an exception.
unfoldable pub remove_published_file : Bool → FileState → FileState
remove_published_file removed st =
    if st.published && removed then record st { published = false; present = false } else st

-- The last loop of `receiveFiles` on one file, `failed` standing for `doneError`.
unfoldable pub clean_file : Bool → Bool → Bool → FileState → FileState
unfolding remove_published_file
clean_file failed completed removed st =
    if st.done && not (failed && not completed) then st else remove_published_file removed st

unfoldable pub final_cleanup : (ℕ → Bool) → Receiver → Receiver
unfolding clean_file map_files
final_cleanup removed s = record s {
  files = map_files (λ id st. clean_file s.failed s.completed (removed id) st) s.files;
  idle_timer = false;
  attached = false;
}

-- What runs while a task waits: nothing that matters to it, a failure (the timer, a channel, a stream or
-- the queue), or a failure whose final cleanup runs too.
pub data Meanwhile : Type 0 where
  nothing : Meanwhile
  failure : (notified : Bool) → Meanwhile
  failure_cleaned : (notified : Bool) (removed : ℕ → Bool) → Meanwhile

unfoldable pub meanwhile : Meanwhile → Receiver → Receiver
unfolding fail_transfer
meanwhile nothing s = s
meanwhile (failure notified) s = fail_transfer notified s
meanwhile (failure_cleaned notified removed) s = final_cleanup removed (fail_transfer notified s)

-- A promise that a task awaits: what runs meanwhile, and its value, `none` when it is rejected.
pub record Await {ℓ} (Found : Type ℓ) : Type ℓ where
  pub during : Meanwhile
  pub answer : Option Found

-- The end of a task up to its next step.
pub data Run {ℓ} (Found : Type ℓ) : Type ℓ where
  thrown : Receiver → Run Found
  value : Found → Receiver → Run Found

abbrev pub Task {ℓ} : Type ℓ → Type ℓ
Task Found = Receiver → Run Found

infixl 5 ◌>>=◌
abbrev pub ◌>>=◌ {ℓ κ} :
    {Found : Type ℓ} {Next : Type κ} → Task Found → (Found → Task Next) → Task Next
(task >>= next) s = elim (task s) [ thrown t ↦ thrown t | value found t ↦ next found t ]

infixl 5 ◌>>◌
abbrev pub ◌>>◌ {κ} : {Next : Type κ} → Task (Unit {0}) → Task Next → Task Next
task >> next = task >>= (λ found. next)

abbrev pub pure {ℓ} : {Found : Type ℓ} → Found → Task Found
pure found s = value found s

abbrev pub throw {ℓ} : {Found : Type ℓ} → Task Found
throw s = thrown s

-- `if (!holds) throw …`
abbrev pub require : Bool → Task (Unit {0})
require holds s = if holds then value tt s else thrown s

abbrev pub found_in {ℓ} : {Found : Type ℓ} → Option Found → Task Found
found_in none s = thrown s
found_in (some found) s = value found s

abbrev pub current : Task Receiver
current s = value s s

abbrev pub change : (Receiver → Receiver) → Task (Unit {0})
change f s = value tt (f s)

unfoldable pub await {ℓ} : {Found : Type ℓ} → Await Found → Task Found
unfolding meanwhile
await promise s = found_in promise.answer (meanwhile promise.during s)

unfoldable pub throw_if_receive_stopped : Task (Unit {0})
throw_if_receive_stopped s = require (not (stopped s)) s

-- The object of a file, which every holder shares.
unfoldable pub file_of : ℕ → Task FileState
file_of id s = found_in (lookup id s.files) s

abbrev pub at_id : ℕ → (FileState → FileState) → ℕ → FileState → FileState
at_id id f j st = if j == id then f st else st

unfoldable pub update_file : ℕ → (FileState → FileState) → Task (Unit {0})
unfolding map_files
update_file id f s = value tt (record s { files = map_files (at_id id f) s.files })
