-- ===== src/Cli/Receiver/Withdrawing/Steps.antt =====
-- cli/transfer.ts: what each step of `maybeFinalize` leaves on the disk when failures are cleaned up at once.
use p2p_transfer.Base.{
  ℕ, ◌≡◌, refl, sym, ◌∙◌, subst, true, false, not, Option, none, some, Text, same_text, Map, lookup,
  nat_eq, arith,
}
use p2p_transfer.Cli.Receiver.{
  FileState, Receiver, stopped, remove_published_file, map_files, meanwhile, Await, Run, thrown,
  value, Task, ◌>>◌, throw, found_in, await, throw_if_receive_stopped, file_of, at_id, update_file,
}
use p2p_transfer.Cli.Receiver.Tasks.{
  Answers, send, require_digest, cleanup_published_after_failure, check_published,
}
use p2p_transfer.Cli.Receiver.Triples.{After, Runs, Runs-bind, Runs-require}
use p2p_transfer.Cli.Receiver.Primitives.{Runs-throw, if-After, found_in-After, require-After}
use p2p_transfer.Cli.Receiver.Changes.{at_id_self}
use p2p_transfer.Shared.Control.{ControlMessage}
use p2p_transfer.Cli.Receiver.Withdrawing.{
  IsPrompt, ArePrompt, OfFile, IsAbsent, IsKnown, IsTidy, IsTold, OfFile-map, absent-IsTidy,
  known-IsTidy, meanwhile-IsKnown,
}

-- The steps of a task.
pub Runs-await :
    {A : Type 0} {P : Receiver → Type 0} (id : ℕ) (promise : Await A)
    → IsTold P id
    → IsPrompt promise.during
    → Runs P (λ a. P) (IsTidy id) (await promise)
unfolding await
Runs-await {A} {P} id promise k prompt = record {
  after = λ s p.
      let q = k.kept promise.during s prompt p in
      found_in-After promise.answer (λ a. P) (IsTidy id) (meanwhile promise.during s) (λ a e. q)
        (k.tidy _ q);
}

pub Runs-stop :
    {P : Receiver → Type 0} (id : ℕ)
    → IsTold P id
    → Runs P (λ u. P) (IsTidy id) throw_if_receive_stopped
unfolding throw_if_receive_stopped
Runs-stop {P} id k = record {
  after = λ s p. require-After (not (stopped s)) (λ u. P) (IsTidy id) s (λ e. p) (k.tidy s p);
}

pub Runs-file_of :
    {P : Receiver → Type 0} (id : ℕ) → IsTold P id → Runs P (λ st. P) (IsTidy id) (file_of id)
unfolding file_of
Runs-file_of {P} id k = record {
  after =
      λ s p. found_in-After (lookup id s.files) (λ st. P) (IsTidy id) s (λ st e. p) (k.tidy s p);
}

pub Runs-digest :
    {P : Receiver → Type 0} (id : ℕ) (actual expected : Text) (cleanup : Task (Unit {0}))
    → Runs P (λ u. IsTidy id) (IsTidy id) cleanup
    → Runs P (λ u. P) (IsTidy id) (require_digest actual expected cleanup)
unfolding require_digest
Runs-digest {P} id actual expected cleanup h = record {
  after = λ s p.
      if-After (same_text actual expected) (λ u. P) (IsTidy id) (value tt s) ((cleanup >> throw) s)
        (λ e. p) (λ e. (Runs-bind h (λ u. Runs-throw (λ t q. q))).after s p);
}

pub Runs-send :
    (id : ℕ) (env : Answers) (m : ControlMessage)
    → Runs (IsTidy id) (λ u. IsTidy id) (IsTidy id) (send env m)
unfolding send
Runs-send id env m =
    Runs-bind (Runs-require (env.sends m) (λ s t. t))
      (λ u. record { after = λ s (t, e). record { uncompleted = t.uncompleted; tidy = t.tidy } })

-- Changes of the file.
file-map :
    (φ ψ : FileState → Type 0) (f : FileState → FileState) (id : ℕ) (files : Map ℕ FileState)
    → ((st : FileState) → φ st → ψ (f st))
    → OfFile φ id files
    → OfFile ψ id (map_files (at_id id f) files)
file-map φ ψ f id files step h =
    OfFile-map φ ψ (at_id id f) id files (λ st a. subst ψ (sym (at_id_self id f st)) (step st a)) h

-- A change that leaves the publication of the file alone.
pub record IsElsewhere (f : FileState → FileState) : Type 0 where
  pub published : (st : FileState) → (f st).published ≡ st.published
  pub present : (st : FileState) → (f st).present ≡ st.present

pub Runs-IsTidy_update :
    (id : ℕ) (f : FileState → FileState)
    → IsElsewhere f
    → Runs (IsTidy id) (λ u. IsTidy id) (IsTidy id) (update_file id f)
unfolding update_file
Runs-IsTidy_update id f e = record {
  after = λ s t. record {
    uncompleted = t.uncompleted;
    tidy =
        file-map (λ st. st.present ≡ true → (st.published ≡ true) × (s.failed ≡ false))
          (λ st. st.present ≡ true → (st.published ≡ true) × (s.failed ≡ false)) f id s.files
          (λ st h p.
            let (known, going) = h (sym (e.present st) ∙ p) in (e.published st ∙ known, going))
          t.tidy;
  };
}

pub Runs-IsAbsent_update :
    (id : ℕ) (f : FileState → FileState)
    → IsElsewhere f
    → Runs (IsAbsent id) (λ u. IsAbsent id) (IsTidy id) (update_file id f)
unfolding update_file
Runs-IsAbsent_update id f e = record {
  after = λ s a. record {
    uncompleted = a.uncompleted;
    absent =
        file-map (λ st. st.present ≡ false) (λ st. st.present ≡ false) f id s.files
          (λ st h. e.present st ∙ h) a.absent;
  };
}

pub Runs-publication :
    (id : ℕ)
    → Runs
        (IsAbsent id)
        (λ u. IsKnown id)
        (IsTidy id)
        (update_file id (λ st. record st { published = true; present = true }))
unfolding update_file
Runs-publication id = record {
  after = λ s a. record {
    uncompleted = a.uncompleted;
    known =
        file-map (λ st. st.present ≡ false) (λ st. st.present ≡ true → st.published ≡ true)
          (λ st. record st { published = true; present = true }) id s.files (λ st h p. refl)
          a.absent;
  };
}

remove-absent :
    (st : FileState)
    → (st.present ≡ true → st.published ≡ true)
    → (remove_published_file true st).present ≡ false
unfolding remove_published_file
remove-absent st h = ground (arith, h)

withdrawn-After :
    (id : ℕ) (o : Option (Unit {0})) (s : Receiver)
    → o ≡ some tt
    → IsKnown id s
    → After
        (λ u. IsTidy id)
        (IsTidy id)
        (elim (found_in o s) as (λ k. Run (Unit {0})) [
          | thrown t ↦ value tt t
          | value u t ↦ update_file id (remove_published_file true) t
        ])
unfolding update_file
withdrawn-After id none s e k = absurd (none-some e)
  where
    none-some : {A : Type 0} {a : A} → none ≡ some a → ⊥
    none-some h = cc
withdrawn-After id (some u) s e k = absent-IsTidy id _ (record {
  uncompleted = k.uncompleted;
  absent =
      file-map (λ st. st.present ≡ true → st.published ≡ true) (λ st. st.present ≡ false)
        (remove_published_file true) id s.files remove-absent k.known;
})

pub Runs-cleanup :
    (id : ℕ) (env : Answers)
    → ArePrompt env
    → Runs (IsKnown id) (λ u. IsTidy id) (IsTidy id) (cleanup_published_after_failure env id)
unfolding cleanup_published_after_failure await
Runs-cleanup id env a = record {
  after = λ s k.
      withdrawn-After id env.withdrawn.answer (meanwhile env.withdrawn.during s) a.granted
        (meanwhile-IsKnown id env.withdrawn.during s a.withdrawn k);
}

pub Runs-check :
    (id : ℕ) (env : Answers)
    → ArePrompt env
    → Runs (IsKnown id) (λ u. IsTidy id) (IsTidy id) (check_published env id)
unfolding check_published
Runs-check id env a = record {
  after = λ s k.
      if-After (stopped s) (λ u. IsTidy id) (IsTidy id)
        ((cleanup_published_after_failure env id >> throw) s) (value tt s)
        (λ e. (Runs-bind (Runs-cleanup id env a) (λ u. Runs-throw (λ t q. q))).after s k)
        (λ e. known-IsTidy id s e k);
}
