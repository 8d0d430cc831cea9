-- ===== src/Cli/Receiver/Verifying.antt =====
-- cli/transfer.ts: the steps of the publication of a received file, from its digests to `file-ok`.
use p2p_transfer.Base.{
  ℕ, ◌≡◌, refl, sym, ◌∙◌, ap, Bool, true, false, Option, some, List, Text, nat_eq, arith,
  Bool-cases, inl, inr,
}
use p2p_transfer.Shared.Messages.{FileManifest}
use p2p_transfer.Cli.Receiver.{
  FileState, Receiver, stopped, remove_published_file, Await, await, Task, update_file,
  throw_if_receive_stopped,
}
use p2p_transfer.Cli.Receiver.Triples.{After, Runs, IsSoundFile}
use p2p_transfer.Cli.Receiver.{◌>>=◌, ◌>>◌}
use p2p_transfer.Cli.Receiver.Tasks.{Answers, send}
use p2p_transfer.Cli.Receiver.Triples.{Runs-bind}
use p2p_transfer.Cli.Receiver.Steps.{Stable}
use p2p_transfer.Cli.Receiver.{throw, Run, thrown, value}
use p2p_transfer.Cli.Receiver.Tasks.{
  cleanup_published_after_failure, check_published, require_digest,
}
use p2p_transfer.Cli.Receiver.Keeping.{republished-Sound}
use p2p_transfer.Cli.Receiver.Primitives.{Runs-weaker, Ends, Goes, Kept, ends, GoesAt, GoesAt-Kept}
use p2p_transfer.Base.{same_text, same_text_iff}
use p2p_transfer.Shared.Control.{file_ok}
use p2p_transfer.Cli.Receiver.Primitives.{
  Runs-from, Runs-throw, Runs-await, Runs-stop, Runs-send, if-After,
}
use p2p_transfer.Cli.Receiver.Changes.{Runs-change_ends, Runs-update}

-- A file that is whole, with the digest that it has to have, before and after the digest of its
-- bytes is compared.
pub record IsPending (expected : Text) (st : FileState) : Type 0 where
  pub expects : st.expected_sha256 ≡ some expected
  pub whole : st.bytes ≡ st.size

pub record IsChecked (sha256 : List ℕ → Text) (expected : Text) (st : FileState) : Type 0 where
  pub pending : IsPending expected st
  pub digest : sha256 st.hashed ≡ expected

IsPending-Stable : (expected : Text) → Stable (IsPending expected)
IsPending-Stable expected st p q h = record { expects = h.expects; whole = h.whole }

IsChecked-Stable : (sha256 : List ℕ → Text) (expected : Text) → Stable (IsChecked sha256 expected)
IsChecked-Stable sha256 expected st p q h = record {
  pending = record { expects = h.pending.expects; whole = h.pending.whole };
  digest = h.digest;
}

-- The last steps: the file is done.
unfoldable pub acknowledge : Answers → ℕ → Task (Unit {0})
unfolding send update_file
acknowledge env id = do send env (file_ok id); update_file id (λ st. record st { done = true })

module _ (is_format : ℕ → Bool) (sha256 : List ℕ → Text) (accepted : Option FileManifest) where
  abbrev Stops : Receiver → Type 0
  Stops = Ends is_format sha256 accepted

  abbrev Has : (FileState → Type 0) → ℕ → Receiver → Type 0
  Has = GoesAt is_format sha256 accepted

  abbrev SoundFile : FileState → Type 0
  SoundFile = IsSoundFile is_format sha256 accepted

  removed-SoundFile : (st : FileState) → SoundFile st → SoundFile (remove_published_file true st)
  unfolding remove_published_file
  removed-SoundFile st v = elim (Bool-cases st.published) [
    | inl e ↦ simp e (republished-Sound is_format sha256 accepted false false st (λ q. q) v)
    | inr e ↦ simp e v
  ]

  removed-size : (st : FileState) → (remove_published_file true st).size ≡ st.size
  unfolding remove_published_file
  removed-size st = ground arith

  caught-After :
      (r : Run (Unit {0})) (next : Task (Unit {0}))
      → After (λ u. Stops) Stops r
      → Runs Stops (λ u. Stops) Stops next
      → After (λ u. Stops) Stops (elim r [ thrown t ↦ value tt t | value u t ↦ next t ])
  caught-After (thrown t) next h k = h
  caught-After (value u t) next h k = k.after t h

  cleanup-Runs :
      {P : Receiver → Type 0} (env : Answers) (id : ℕ)
      → Kept is_format sha256 accepted P
      → Runs P (λ u. Stops) Stops (cleanup_published_after_failure env id)
  unfolding cleanup_published_after_failure
  cleanup-Runs {P} env id k = record {
    after = λ s p.
        caught-After (await env.withdrawn s) (update_file id (remove_published_file true))
          ((Runs-weaker (λ a t q. ends is_format sha256 accepted k t q)
              (Runs-await is_format sha256 accepted env.withdrawn k)).after
            s p)
          (Runs-change_ends is_format sha256 accepted id (remove_published_file true)
            removed-SoundFile removed-size);
  }

  pub digest-Runs :
      {P : Receiver → Type 0} (actual expected : Text) (cleanup : Task (Unit {0}))
      → Runs P (λ u. Stops) Stops cleanup
      → Runs P (λ u s. P s × (actual ≡ expected)) Stops (require_digest actual expected cleanup)
  unfolding require_digest
  digest-Runs {P} actual expected cleanup h = record {
    after = λ s p.
        if-After (same_text actual expected) (λ u t. P t × (actual ≡ expected)) Stops (value tt s)
          ((cleanup >> throw) s) (λ e. (p, (same_text_iff actual expected).0 e))
          (λ e. (Runs-bind h (λ u. Runs-throw (λ t q. q))).after s p);
  }

  check-Runs :
      {P : Receiver → Type 0} (env : Answers) (id : ℕ)
      → Kept is_format sha256 accepted P
      → Runs P (λ u. P) Stops (check_published env id)
  unfolding check_published
  check-Runs {P} env id k = record {
    after = λ s p.
        if-After (stopped s) (λ u. P) Stops ((cleanup_published_after_failure env id >> throw) s)
          (value tt s)
          (λ e. (Runs-bind (cleanup-Runs env id k) (λ u. Runs-throw (λ t q. q))).after s p)
          (λ e. p);
  }

  -- What `throw_if_receive_stopped` and a message keep.
  pub stop-Runs :
      {P : Receiver → Type 0}
      → Kept is_format sha256 accepted P
      → Runs P (λ u. P) Stops throw_if_receive_stopped
  stop-Runs k = Runs-weaker (λ u s (p, e). p) (Runs-stop is_format sha256 accepted k)

  pub await-Runs :
      {P : Receiver → Type 0} {A : Type 0} (promise : Await A)
      → Kept is_format sha256 accepted P
      → Runs P (λ a. P) Stops (await promise)
  await-Runs promise k = Runs-await is_format sha256 accepted promise k

  pub IsPending-kept :
      (id : ℕ) (expected : Text) → Kept is_format sha256 accepted (Has (IsPending expected) id)
  IsPending-kept id expected = GoesAt-Kept is_format sha256 accepted (IsPending-Stable expected)

  IsChecked-kept :
      (id : ℕ) (expected : Text)
      → Kept is_format sha256 accepted (Has (IsChecked sha256 expected) id)
  IsChecked-kept id expected =
      GoesAt-Kept is_format sha256 accepted (IsChecked-Stable sha256 expected)

  done-SoundFile :
      (expected : Text) (st : FileState)
      → IsChecked sha256 expected st
      → SoundFile st
      → SoundFile (record st { done = true })
  done-SoundFile expected st c v = record {
    measured = v.measured;
    bounded = v.bounded;
    verified = λ d. record {
      digest = c.pending.expects ∙ ap some (sym c.digest);
      whole = c.pending.whole;
    };
    held = v.held;
  }

  acknowledge-Runs :
      (env : Answers) (id : ℕ) (expected : Text)
      → Runs
          (Has (IsChecked sha256 expected) id)
          (λ u s. Goes is_format sha256 accepted s)
          Stops
          (acknowledge env id)
  unfolding acknowledge
  acknowledge-Runs env id expected =
      Runs-bind (Runs-send is_format sha256 accepted env (file_ok id) (IsChecked-kept id expected))
        (λ u.
          Runs-weaker (λ v s p. p.goes)
            (Runs-update is_format sha256 accepted {ψ = IsPending expected} id
              (λ st. record st { done = true }) (λ st c v. done-SoundFile expected st c v)
              (λ st c. record { expects = c.pending.expects; whole = c.pending.whole })
              (λ st. refl)))

  -- From the publication on.
  pub published-Runs :
      (env : Answers) (id : ℕ) (expected : Text)
      → Runs
          (Has (IsChecked sha256 expected) id)
          (λ u s. Goes is_format sha256 accepted s)
          Stops
          (do
            update_file id (λ st. record st { published = true; present = true })
            check_published env id
            published ← await env.published_sha256
            check_published env id
            require_digest published expected (cleanup_published_after_failure env id)
            acknowledge env id)
  published-Runs env id expected =
      let kept = IsChecked-kept id expected in
      Runs-bind
        (Runs-update is_format sha256 accepted {ψ = IsChecked sha256 expected} id
          (λ st. record st { published = true; present = true })
          (λ st c v. republished-Sound is_format sha256 accepted true true st (λ q. q) v)
          (λ st c. IsChecked-Stable sha256 expected st true true c) (λ st. refl))
        (λ u. Runs-bind (check-Runs env id kept) (λ v.
          Runs-bind (await-Runs env.published_sha256 kept) (λ published.
            Runs-bind (check-Runs env id kept) (λ w.
              Runs-bind (digest-Runs published expected _ (cleanup-Runs env id kept))
                (λ x. Runs-from (λ s (p, e). p) (acknowledge-Runs env id expected))))))

  -- From the digest of the partial file on.
  pub on_disk-Runs :
      (env : Answers) (id : ℕ) (expected : Text) (next : Task (Unit {0}))
      → Runs
          (Has (IsChecked sha256 expected) id)
          (λ u s. Goes is_format sha256 accepted s)
          Stops
          next
      → Runs
          (Has (IsChecked sha256 expected) id)
          (λ u s. Goes is_format sha256 accepted s)
          Stops
          (do
            on_disk ← await env.on_disk_sha256
            throw_if_receive_stopped
            require_digest on_disk expected (await env.part_removed)
            await env.sealed_file_ok
            throw_if_receive_stopped
            await env.published_part
            next)
  on_disk-Runs env id expected next h =
      let kept = IsChecked-kept id expected in
      Runs-bind (await-Runs env.on_disk_sha256 kept) (λ on_disk. Runs-bind (stop-Runs kept) (λ u.
        Runs-bind
          (digest-Runs on_disk expected _ (
            Runs-weaker (λ a t q. ends is_format sha256 accepted kept t q)
              (await-Runs env.part_removed kept)))
          (λ v. Runs-bind (Runs-from (λ s (p, e). p) (await-Runs env.sealed_file_ok kept)) (λ w.
            Runs-bind (stop-Runs kept)
              (λ x. Runs-bind (await-Runs env.published_part kept) (λ y. h))))))
