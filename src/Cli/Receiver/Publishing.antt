-- ===== src/Cli/Receiver/Publishing.antt =====
-- cli/transfer.ts: `maybeFinalize` makes a file done only when it is whole and its digest is the one
-- that the sender gave.
use p2p_transfer.Base.{
  ℕ, ◌≡◌, refl, sym, ◌∙◌, subst, Bool, true, false, Option, none, some, List, Text, if◌then◌else◌,
  lookup, nat_eq, arith, Bool-cases, inl, inr,
}
use p2p_transfer.Shared.Messages.{FileManifest}
use p2p_transfer.Cli.Receiver.{FileState, Receiver, update_file}
use p2p_transfer.Cli.Receiver.Triples.{After, Runs}
use p2p_transfer.Cli.Receiver.{◌>>◌}
use p2p_transfer.Cli.Receiver.Tasks.{Answers}
use p2p_transfer.Cli.Receiver.Triples.{Runs-bind}
use p2p_transfer.Cli.Receiver.{throw, pure, Run, thrown, value}
use p2p_transfer.Cli.Receiver.Primitives.{Runs-weaker, Ends, Goes, ends, GoesAt}
use p2p_transfer.Cli.Receiver.Tasks.{
  publish_file, finalizing_over, finalize, waits_for_more, maybe_finalize,
}
use p2p_transfer.Cli.Receiver.Primitives.{Runs-from, Runs-throw, Runs-file_of, Goes-Kept}
use p2p_transfer.Cli.Receiver.Changes.{Runs-change_ends, Runs-update, some_eq}
use p2p_transfer.Cli.Receiver.Verifying.{
  IsPending, IsChecked, acknowledge, IsPending-kept, published-Runs, on_disk-Runs, digest-Runs,
  stop-Runs, await-Runs,
}

module _ (is_format : ℕ → Bool) (sha256 : List ℕ → Text) (accepted : Option FileManifest) where
  abbrev Stops : Receiver → Type 0
  Stops = Ends is_format sha256 accepted

  abbrev Has : (FileState → Type 0) → ℕ → Receiver → Type 0
  Has = GoesAt is_format sha256 accepted

  IsChecked-of :
      (id : ℕ) (expected : Text) (st : FileState) (s : Receiver)
      → Has (IsPending expected) id s
      → lookup id s.files ≡ some st
      → sha256 st.hashed ≡ expected
      → Has (IsChecked sha256 expected) id s
  IsChecked-of id expected st s p found digest =
      let same = some_eq (sym p.file.stored ∙ found) in
      record {
        goes = p.goes;
        file = record {
          state = st;
          stored = found;
          holds = record {
            pending = subst (IsPending expected) same p.file.holds;
            digest = digest;
          };
        };
      }

  publish_file-Runs :
      (env : Answers) (id : ℕ) (expected : Text)
      → Runs
          (Has (IsPending expected) id)
          (λ u s. Goes is_format sha256 accepted s)
          Stops
          (publish_file sha256 env id expected)
  unfolding publish_file acknowledge
  publish_file-Runs env id expected =
      let kept = IsPending-kept is_format sha256 accepted id expected in
      Runs-bind (await-Runs is_format sha256 accepted env.stream_ended kept) (λ u.
        Runs-bind (stop-Runs is_format sha256 accepted kept) (λ v.
          Runs-bind (Runs-file_of is_format sha256 accepted id kept) (λ st.
            Runs-bind
              (digest-Runs is_format sha256 accepted (sha256 st.hashed) expected _ (
                Runs-weaker (λ a t q. ends is_format sha256 accepted kept t q)
                  (Runs-from (λ s (p, e). p)
                    (await-Runs is_format sha256 accepted env.part_removed kept))))
              (λ w.
                Runs-from (λ s ((p, found), digest). IsChecked-of id expected st s p found digest)
                  (on_disk-Runs is_format sha256 accepted env id expected _
                    (published-Runs is_format sha256 accepted env id expected))))))

  over-After :
      (id : ℕ) (r : Run (Unit {0}))
      → After (λ u s. Goes is_format sha256 accepted s) Stops r
      → After
          (λ u s. Goes is_format sha256 accepted s)
          Stops
          (elim r as (λ k. Run (Unit {0})) [
            | thrown t ↦ (update_file id (λ st. record st { finalizing = false }) >> throw) t
            | value u t ↦ value u t
          ])
  over-After id (value u t) h = h
  over-After id (thrown t) h =
      (Runs-bind
          (Runs-change_ends is_format sha256 accepted id (λ st. record st { finalizing = false })
            (λ st v. record {
              measured = v.measured;
              bounded = v.bounded;
              held = v.held;
              verified =
                  λ d. record { digest = (v.verified d).digest; whole = (v.verified d).whole };
            })
            (λ st. refl))
          (λ u. Runs-throw (λ s q. q))).after
        t h

  finalize-Runs :
      (env : Answers) (id : ℕ) (expected : Text)
      → Runs
          (Has (IsPending expected) id)
          (λ u s. Goes is_format sha256 accepted s)
          Stops
          (finalize sha256 env id expected)
  unfolding finalize finalizing_over
  finalize-Runs env id expected =
      Runs-bind
        (Runs-update is_format sha256 accepted {ψ = IsPending expected} id
          (λ st. record st { finalizing = true })
          (λ st c v. record {
            measured = v.measured;
            bounded = v.bounded;
            held = v.held;
            verified = λ d. record { digest = (v.verified d).digest; whole = (v.verified d).whole };
          })
          (λ st c. record { expects = c.expects; whole = c.whole }) (λ st. refl))
        (λ u. record {
          after = λ s p.
              over-After id (publish_file sha256 env id expected s)
                ((publish_file-Runs env id expected).after s p);
        })

  IsPending-of :
      (id : ℕ) (expected : Text) (st : FileState) (s : Receiver)
      → Goes is_format sha256 accepted s
      → lookup id s.files ≡ some st
      → st.expected_sha256 ≡ some expected
      → waits_for_more sha256 st ≡ false
      → Has (IsPending expected) id s
  IsPending-of id expected st s g found expects full =
      let v = g.sound.weak.files id st found in
      record {
        goes = g;
        file = record {
          state = st;
          stored = found;
          holds = record { expects = expects; whole = ground (arith, v.bounded, full) };
        };
      }

  finalize-from :
      (env : Answers) (id : ℕ) (st : FileState) (o : Option Text)
      → st.expected_sha256 ≡ o
      → Runs
          (λ s. Goes is_format sha256 accepted s × (lookup id s.files ≡ some st))
          (λ u s. Goes is_format sha256 accepted s)
          Stops
          (elim o [
            | none ↦ pure tt
            | some expected ↦
                if waits_for_more sha256 st then pure tt else finalize sha256 env id expected
          ])
  finalize-from env id st none e = record { after = λ s (g, found). g }
  finalize-from env id st (some expected) e = elim (Bool-cases (waits_for_more sha256 st)) [
    | inl waits ↦ rw waits (record { after = λ s (g, found). g })
    | inr full ↦ rw full (
        Runs-from (λ s (g, found). IsPending-of id expected st s g found e full)
          (finalize-Runs env id expected))
  ]

  -- `maybeFinalize` on a file of a task that runs.
  pub maybe_finalize-Runs :
      (env : Answers) (id : ℕ)
      → Runs
          (Goes is_format sha256 accepted)
          (λ u s. Goes is_format sha256 accepted s)
          Stops
          (maybe_finalize sha256 env id)
  unfolding maybe_finalize
  maybe_finalize-Runs env id =
      Runs-bind (Runs-file_of is_format sha256 accepted id (Goes-Kept is_format sha256 accepted))
        (λ st. finalize-from env id st st.expected_sha256 refl)
