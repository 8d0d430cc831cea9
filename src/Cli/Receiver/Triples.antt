-- ===== src/Cli/Receiver/Triples.antt =====
-- cli/transfer.ts: the invariant of `receiveFiles`, and what a task guarantees of the state it leaves,
-- when it returns and when it throws.
use p2p_transfer.Base.{
  ℕ, ◌≤◌, ◌≡◌, refl, Bool, true, false, Option, none, some, List, [], ◌∷◌, Text, nat, ◌==◌, ==_iff,
  length, Map, lookup, Every, IsDistinct, nat_eq, arith, Bool-cases, inl, inr,
}
use p2p_transfer.Shared.Messages.{FileManifest, FileManifestEntry}
use p2p_transfer.Shared.Transfer.{TransferManifest}
use p2p_transfer.Cli.Receiver.{
  FileState, Receiver, stopped, Run, thrown, value, Task, ◌>>=◌, require, found_in, map_files,
}
use p2p_transfer.Cli.Receiver.Handlers.{matches_accepted, expect_files}

-- What a task that starts in P guarantees.
abbrev pub After : {A : Type 0} → (A → Receiver → Type 0) → (Receiver → Type 0) → Run A → Type 0
After Q E (thrown t) = E t
After Q E (value a t) = Q a t

pub record Runs {A : Type 0} (P : Receiver → Type 0) (Q : A → Receiver → Type 0)
    (E : Receiver → Type 0) (task : Task A) : Type 0 where
  pub after : (s : Receiver) → P s → After Q E (task s)

After-bind :
    {A B : Type 0} (Q : A → Receiver → Type 0) (R : B → Receiver → Type 0) (E : Receiver → Type 0)
    (next : A → Task B) (r : Run A)
    → After Q E r
    → ((a : A) → Runs (Q a) R E (next a))
    → After R E (elim r [ thrown t ↦ thrown t | value a t ↦ next a t ])
After-bind Q R E next (thrown t) h k = h
After-bind Q R E next (value a t) h k = (k a).after t h

-- One task after the other.
pub Runs-bind :
    {A B : Type 0} {P : Receiver → Type 0} {Q : A → Receiver → Type 0} {R : B → Receiver → Type 0}
    {E : Receiver → Type 0} {task : Task A} {next : A → Task B}
    → Runs P Q E task
    → ((a : A) → Runs (Q a) R E (next a))
    → Runs P R E (task >>= next)
Runs-bind {Q = Q} {R} {E} {task} {next} h k = record {
  after = λ s p. After-bind Q R E next (task s) (h.after s p) k;
}

-- A test, and a value that has to be there.
pub Runs-require :
    {P : Receiver → Type 0} {E : Receiver → Type 0} (b : Bool)
    → ((s : Receiver) → P s → E s)
    → Runs P (λ u s. P s × (b ≡ true)) E (require b)
Runs-require true stops = record { after = λ s p. (p, refl) }
Runs-require false stops = record { after = stops }

pub Runs-found_in :
    {A : Type 0} {P : Receiver → Type 0} {E : Receiver → Type 0} (o : Option A)
    → ((s : Receiver) → P s → E s)
    → Runs P (λ a s. P s × (o ≡ some a)) E (found_in o)
Runs-found_in none stops = record { after = stops }
Runs-found_in (some a) stops = record { after = λ s p. (p, refl) }

-- Lookups in the files after a change of each.
pub lookup-map_files :
    (f : ℕ → FileState → FileState) (id : ℕ) (st : FileState) (files : Map ℕ FileState)
    → lookup id files ≡ some st
    → lookup id (map_files f files) ≡ some (f id st)
unfolding map_files lookup
lookup-map_files f id st [] h = ground arith
lookup-map_files f id st ((j, old) ∷ files) h =
    ground (arith, ==_iff j id, lookup-map_files f id st files)

pub lookup-map_files-some :
    (f : ℕ → FileState → FileState) (id : ℕ) (new : FileState) (files : Map ℕ FileState)
    → lookup id (map_files f files) ≡ some new
    → (st : FileState) × (lookup id files ≡ some st) × (f id st ≡ new)
unfolding map_files lookup
lookup-map_files-some f id new [] h = ground arith
lookup-map_files-some f id new ((j, old) ∷ files) h = elim (Bool-cases (j == id)) [
  | inl e ↦ (old, ground arith, ground (arith, ==_iff j id))
  | inr e ↦
      let (st, found, same) = lookup-map_files-some f id new files (ground arith) in
      (st, ground arith, same)
]

module _ (is_format : ℕ → Bool) (sha256 : List ℕ → Text) (accepted : Option FileManifest) where
  -- A file that is whole: the digest that the sender gave is the one of the bytes that came.
  pub record IsVerified (st : FileState) : Type 0 where
    pub digest : st.expected_sha256 ≡ some (sha256 st.hashed)
    pub whole : st.bytes ≡ st.size

  pub record IsSoundFile (st : FileState) : Type 0 where
    pub measured : length st.hashed ≡ st.bytes
    pub bounded : st.bytes ≤ st.size
    pub verified : st.done ≡ true → IsVerified st
    pub held : st.present ≡ true → st.published ≡ true

  -- A file has an entry of the manifest with its size.
  pub record IsExpected (expected : Map ℕ FileManifestEntry) (id : ℕ) (st : FileState)
      : Type 0 where
    pub entry : FileManifestEntry
    pub listed : lookup id expected ≡ some entry
    pub sized : entry.size ≡ nat st.size

  -- The file of an entry.
  pub record IsReceived (files : Map ℕ FileState) (id : ℕ) (entry : FileManifestEntry)
      : Type 0 where
    pub state : FileState
    pub stored : lookup id files ≡ some state

  abbrev pub IsDone : ℕ → FileState → Type 0
  IsDone id st = st.done ≡ true

  pub record IsFinished (s : Receiver) : Type 0 where
    pub seen : s.all_done_seen ≡ true
    pub done : Every IsDone s.files
    pub unfailed : s.failed ≡ false

  -- What holds of the files whether a task throws or returns.
  pub record IsWeak (s : Receiver) : Type 0 where
    pub files : Every (λ id st. IsSoundFile st) s.files
    pub expected : Every (IsExpected s.expected_files) s.files
    pub unset : s.manifest ≡ none → (s.expected_files ≡ []) × (s.all_done_seen ≡ false)
    pub distinct : IsDistinct s.files
    pub all_seen : s.all_done_seen ≡ true → Every (IsReceived s.files) s.expected_files
    pub finished : s.completed ≡ true → IsFinished s

  -- The manifest is the accepted one, unless the transfer fails.
  pub record IsAgreed (s : Receiver) (m : TransferManifest) : Type 0 where
    pub matches : matches_accepted is_format sha256 accepted m ≡ true
    pub expects : s.expected_files ≡ expect_files m.files []

  -- The invariant between two events.
  pub record IsSound (s : Receiver) : Type 0 where
    pub weak : IsWeak s
    pub agreed : s.failed ≡ false → (m : TransferManifest) → s.manifest ≡ some m → IsAgreed s m
    pub watched : stopped s ≡ false → s.idle_timer ≡ true

  -- The state of a task that throws, and of a task that goes on.
  pub record IsThrown (s : Receiver) : Type 0 where
    pub weak : IsWeak s
    pub running : s.completed ≡ false

  pub record IsRunning (s : Receiver) : Type 0 where
    pub sound : IsSound s
    pub running : s.completed ≡ false

  pub IsRunning-IsThrown : (s : Receiver) → IsRunning s → IsThrown s
  IsRunning-IsThrown s r = record { weak = r.sound.weak; running = r.running }
