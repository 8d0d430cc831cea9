-- ===== src/Cli/Receiver/Steps.antt =====
-- cli/transfer.ts: a failure, the final cleanup and what else runs while a task waits keep the
-- invariant, and leave the rest of a file as it is.
use p2p_transfer.Base.{
  ℕ, ◌≡◌, refl, sym, ◌∙◌, subst, ap, Bool, true, false, not, ◌&&◌, Option, none, some, List, [],
  ◌∷◌, Text, nat, ◌==◌, Map, lookup, IsDistinct, nat_eq, arith, Bool-cases, inl, inr,
}
use p2p_transfer.Shared.Messages.{FileManifest}
use p2p_transfer.Cli.Receiver.{
  FileState, Receiver, map_files, fail_transfer, final_cleanup, clean_file, remove_published_file,
  Meanwhile, nothing, failure, failure_cleaned, meanwhile,
}
use p2p_transfer.Cli.Receiver.Triples.{lookup-map_files, lookup-map_files-some, IsSoundFile, IsWeak}

-- The same file, but for its publication.
abbrev pub republished : Bool → Bool → FileState → FileState
republished published present st = record st { published = published; present = present }

pub record IsRepublished (old new : FileState) : Type 0 where
  pub now_published : Bool
  pub now_present : Bool
  pub same : new ≡ republished now_published now_present old

IsRepublished-remove :
    (removed : Bool) (st : FileState) → IsRepublished st (remove_published_file removed st)
unfolding remove_published_file
IsRepublished-remove removed st = elim (Bool-cases (st.published && removed)) [
  | inl e ↦ record { now_published = false; now_present = false; same = rw e refl }
  | inr e ↦ record { now_published = st.published; now_present = st.present; same = rw e refl }
]

pub IsRepublished-clean :
    (failed completed removed : Bool) (st : FileState)
    → IsRepublished st (clean_file failed completed removed st)
unfolding clean_file
IsRepublished-clean failed completed removed st =
    elim (Bool-cases (st.done && not (failed && not completed))) [
      | inl e ↦ record { now_published = st.published; now_present = st.present; same = rw e refl }
      | inr e ↦
          let r = IsRepublished-remove removed st in
          record {
            now_published = r.now_published;
            now_present = r.now_present;
            same = rw e r.same;
          }
    ]

held-remove :
    (removed : Bool) (st : FileState)
    → (st.present ≡ true → st.published ≡ true)
    → (remove_published_file removed st).present ≡ true
    → (remove_published_file removed st).published ≡ true
unfolding remove_published_file
held-remove removed st h k = ground arith

pub held-clean :
    (failed completed removed : Bool) (st : FileState)
    → (st.present ≡ true → st.published ≡ true)
    → (clean_file failed completed removed st).present ≡ true
    → (clean_file failed completed removed st).published ≡ true
unfolding clean_file
held-clean failed completed removed st h =
    elim (Bool-cases (st.done && not (failed && not completed))) [
      | inl e ↦ λ k. ground (arith, e)
      | inr e ↦ rw e (held-remove removed st h)
    ]

map_files-none :
    (f : ℕ → FileState → FileState) (id : ℕ) (files : Map ℕ FileState)
    → lookup id files ≡ none
    → lookup id (map_files f files) ≡ none
unfolding map_files lookup
map_files-none f id [] h = h
map_files-none f id ((j, st) ∷ files) h = elim (Bool-cases (j == id)) [
  | inl e ↦ ground (arith, e)
  | inr e ↦ rw e (map_files-none f id files (ground (arith, e)))
]

map_files-IsDistinct :
    (f : ℕ → FileState → FileState) (files : Map ℕ FileState)
    → IsDistinct files
    → IsDistinct (map_files f files)
unfolding map_files
map_files-IsDistinct f [] h = tt
map_files-IsDistinct f ((j, st) ∷ files) (absent, h) =
    (map_files-none f j files absent, map_files-IsDistinct f files h)

-- What is known of the file with an identifier.
pub record At (φ : FileState → Type 0) (id : ℕ) (s : Receiver) : Type 0 where
  pub state : FileState
  pub stored : lookup id s.files ≡ some state
  pub holds : φ state

abbrev pub Stable : (FileState → Type 0) → Type 0
Stable φ = (st : FileState) (published present : Bool) → φ st → φ (republished published present st)

pub fail_transfer-files :
    (notified : Bool) (s : Receiver) → (fail_transfer notified s).files ≡ s.files
unfolding fail_transfer
fail_transfer-files notified s = ground arith

pub At-meanwhile :
    (φ : FileState → Type 0) (id : ℕ) (m : Meanwhile) (s : Receiver)
    → Stable φ
    → At φ id s
    → At φ id (meanwhile m s)
unfolding meanwhile final_cleanup
At-meanwhile φ id nothing s stable a = a
At-meanwhile φ id (failure notified) s stable a = record {
  state = a.state;
  stored = ap (lookup id) (fail_transfer-files notified s) ∙ a.stored;
  holds = a.holds;
}
At-meanwhile φ id (failure_cleaned notified removed) s stable a =
    let t = fail_transfer notified s in
    let r = IsRepublished-clean t.failed t.completed (removed id) a.state in
    record {
      state = clean_file t.failed t.completed (removed id) a.state;
      stored =
          lookup-map_files (λ id st. clean_file t.failed t.completed (removed id) st) id a.state
            t.files (ap (lookup id) (fail_transfer-files notified s) ∙ a.stored);
      holds = subst φ (sym r.same) (stable a.state r.now_published r.now_present a.holds);
    }

module _ (is_format : ℕ → Bool) (sha256 : List ℕ → Text) (accepted : Option FileManifest) where
  -- A change of each file that keeps its size, what it holds and that it is done.
  pub record IsFileChange (s : Receiver) (f : ℕ → FileState → FileState) : Type 0 where
    pub keeps :
        (id : ℕ) (st : FileState)
        → lookup id s.files ≡ some st
        → IsSoundFile is_format sha256 accepted st
        → IsSoundFile is_format sha256 accepted (f id st)
    pub same_size : (id : ℕ) (st : FileState) → (f id st).size ≡ st.size
    pub still_done :
        s.completed ≡ true → (id : ℕ) (st : FileState) → st.done ≡ true → (f id st).done ≡ true

  pub map_files-IsWeak :
      (s : Receiver) (f : ℕ → FileState → FileState)
      → IsFileChange s f
      → IsWeak is_format sha256 accepted s
      → IsWeak is_format sha256 accepted (record s { files = map_files f s.files })
  map_files-IsWeak s f c w = record {
    files = λ id new found.
        let (st, old, same) = lookup-map_files-some f id new s.files found in
        subst (IsSoundFile is_format sha256 accepted) same (c.keeps id st old (w.files id st old));
    expected = λ id new found.
        let (st, old, same) = lookup-map_files-some f id new s.files found in
        let e = w.expected id st old in
        record {
          entry = e.entry;
          listed = e.listed;
          sized = e.sized ∙ ap nat (sym (c.same_size id st) ∙ ap (λ x. x.size) same);
        };
    unset = w.unset;
    distinct = map_files-IsDistinct f s.files w.distinct;
    all_seen = λ seen id entry listed.
        let r = w.all_seen seen id entry listed in
        record { state = f id r.state; stored = lookup-map_files f id r.state s.files r.stored };
    finished = λ completed.
        let fin = w.finished completed in
        record {
          seen = fin.seen;
          done = λ id new found.
              let (st, old, same) = lookup-map_files-some f id new s.files found in
              subst (λ x. x.done ≡ true) same (c.still_done completed id st (fin.done id st old));
          unfailed = fin.unfailed;
        };
  }
