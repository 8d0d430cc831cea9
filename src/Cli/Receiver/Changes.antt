-- ===== src/Cli/Receiver/Changes.antt =====
-- cli/transfer.ts: the changes of a file in a task.
use p2p_transfer.Base.{
  ℕ, ◌≡◌, refl, sym, ◌∙◌, subst, ap, Bool, false, Option, some, List, Text, ◌==◌, ==_iff, ==_refl,
  lookup, nat_eq, arith, Bool-cases, inl, inr,
}
use p2p_transfer.Shared.Messages.{FileManifest}
use p2p_transfer.Cli.Receiver.{FileState, Receiver, map_files, at_id, update_file}
use p2p_transfer.Cli.Receiver.Triples.{Runs, lookup-map_files, IsSoundFile}
use p2p_transfer.Cli.Receiver.Steps.{IsFileChange, map_files-IsWeak}
use p2p_transfer.Cli.Receiver.Primitives.{Ends, Goes, GoesAt}

pub some_eq : {A : Type 0} {a b : A} → some a ≡ some b → a ≡ b
some_eq h = cc

pub at_id_self : (id : ℕ) (f : FileState → FileState) (st : FileState) → at_id id f id st ≡ f st
at_id_self id f st = rw (==_refl id)

module _ (is_format : ℕ → Bool) (sha256 : List ℕ → Text) (accepted : Option FileManifest) where
  abbrev Stops : Receiver → Type 0
  Stops = Ends is_format sha256 accepted

  abbrev Going : Receiver → Type 0
  Going = Goes is_format sha256 accepted

  -- A change of one file.
  at_id-FileChange :
      (s : Receiver) (id : ℕ) (f : FileState → FileState)
      → ((st : FileState)
          → lookup id s.files ≡ some st
          → IsSoundFile is_format sha256 accepted st
          → IsSoundFile is_format sha256 accepted (f st))
      → ((st : FileState) → (f st).size ≡ st.size)
      → s.completed ≡ false
      → IsFileChange is_format sha256 accepted s (at_id id f)
  at_id-FileChange s id f keeps size running = record {
    keeps = λ j st found v. elim (Bool-cases (j == id)) [
      | inl e ↦
          let same = (==_iff j id).0 e in
          rw e (keeps st (subst (λ k. lookup k s.files ≡ some st) same found) v)
      | inr e ↦ rw e v
    ];
    same_size = λ j st. elim (Bool-cases (j == id)) [ inl e ↦ rw e (size st) | inr e ↦ rw e refl ];
    still_done = λ completed j st done. ground (arith, running, completed);
  }

  pub changed-Ends :
      (s : Receiver) (f : ℕ → FileState → FileState)
      → IsFileChange is_format sha256 accepted s f
      → Stops s
      → Stops (record s { files = map_files f s.files })
  changed-Ends s f c t = record {
    weak = map_files-IsWeak is_format sha256 accepted s f c t.weak;
    running = t.running;
  }

  pub changed-Goes :
      (s : Receiver) (f : ℕ → FileState → FileState)
      → IsFileChange is_format sha256 accepted s f
      → Going s
      → Going (record s { files = map_files f s.files })
  changed-Goes s f c r = record {
    sound = record {
      weak = map_files-IsWeak is_format sha256 accepted s f c r.sound.weak;
      agreed = λ unfailed m set.
          let a = r.sound.agreed unfailed m set in
          record { matches = a.matches; expects = a.expects };
      watched = r.sound.watched;
    };
    running = r.running;
  }

  -- A change that every file admits.
  pub Runs-change_ends :
      (id : ℕ) (f : FileState → FileState)
      → ((st : FileState)
          → IsSoundFile is_format sha256 accepted st
          → IsSoundFile is_format sha256 accepted (f st))
      → ((st : FileState) → (f st).size ≡ st.size)
      → Runs Stops (λ u. Stops) Stops (update_file id f)
  unfolding update_file
  Runs-change_ends id f keeps size = record {
    after = λ s t.
        changed-Ends s (at_id id f)
          (at_id-FileChange s id f (λ st found v. keeps st v) size t.running) t;
  }

  -- A change of a file about which more is known.
  pub Runs-update :
      {φ ψ : FileState → Type 0} (id : ℕ) (f : FileState → FileState)
      → ((st : FileState)
          → φ st
          → IsSoundFile is_format sha256 accepted st
          → IsSoundFile is_format sha256 accepted (f st))
      → ((st : FileState) → φ st → ψ (f st))
      → ((st : FileState) → (f st).size ≡ st.size)
      → Runs
          (GoesAt is_format sha256 accepted φ id)
          (λ u s. GoesAt is_format sha256 accepted ψ id s)
          Stops
          (update_file id f)
  unfolding update_file
  Runs-update {φ} {ψ} id f keeps now size = record {
    after = λ s p.
        let a = p.file in
        let known : (st : FileState) → lookup id s.files ≡ some st → φ st =
          λ st found. subst φ (some_eq (sym a.stored ∙ found)) a.holds in
        record {
          goes =
              changed-Goes s (at_id id f)
                (at_id-FileChange s id f (λ st found v. keeps st (known st found) v) size
                  p.goes.running)
                p.goes;
          file = record {
            state = f a.state;
            stored =
                lookup-map_files (at_id id f) id a.state s.files a.stored
                ∙ ap some (at_id_self id f a.state);
            holds = now a.state a.holds;
          };
        };
  }
