-- ===== src/Cli/Receiver/Opening.antt =====
-- cli/transfer.ts: the manifest of a transfer and the beginning of a file, in `handleControlMessage`.
use p2p_transfer.Base.{
  ℕ, ◌≡◌, refl, sym, ◌∙◌, subst, ap, Bool, true, false, Option, none, some, List, [], Text, lookup,
  nat_eq, arith,
}
use p2p_transfer.Shared.Messages.{FileManifest}
use p2p_transfer.Cli.Receiver.{FileState, Receiver, stopped}
use p2p_transfer.Cli.Receiver.Triples.{Runs, IsAgreed}
use p2p_transfer.Cli.Receiver.Handlers.{matches_accepted, expect_files}
use p2p_transfer.Shared.Transfer.{TransferManifest}
use p2p_transfer.Cli.Receiver.Triples.{Runs-bind, Runs-require}
use p2p_transfer.Cli.Receiver.Primitives.{Ends, Goes, ends}
use p2p_transfer.Cli.Receiver.Primitives.{Runs-change, Goes-Kept}
use p2p_transfer.Cli.Receiver.Changes.{some_eq}
use p2p_transfer.Shared.Limits.{assert_manifest_within_limits}
use p2p_transfer.Shared.Transfer.{passes}
use p2p_transfer.Shared.Control.{offered_manifest, is_nothing}
use p2p_transfer.Cli.Receiver.Handlers.{on_manifest}
use p2p_transfer.Cli.Receiver.Primitives.{Runs-current}

pub none-some : {A : Type 0} {a : A} → none ≡ some a → ⊥
none-some h = cc

pub nothing-none : {A : Type 0} (o : Option A) → is_nothing o ≡ true → o ≡ none
nothing-none none h = refl
nothing-none (some a) h = ground arith

module _ (is_format : ℕ → Bool) (sha256 : List ℕ → Text) (accepted : Option FileManifest) where
  abbrev Stops : Receiver → Type 0
  Stops = Ends is_format sha256 accepted

  abbrev Going : Receiver → Type 0
  Going = Goes is_format sha256 accepted

  -- The manifest is set, and its tests are still to come.
  record IsTesting (m : TransferManifest) (s : Receiver) : Type 0 where
    pub stops : Stops s
    pub set : s.manifest ≡ some m
    pub expects : s.expected_files ≡ expect_files m.files []
    pub watched : stopped s ≡ false → s.idle_timer ≡ true

  -- Without a manifest no file is there.
  no_file :
      (s : Receiver)
      → Going s
      → s.manifest ≡ none
      → (id : ℕ) (st : FileState) → lookup id s.files ≡ some st
      → ⊥
  unfolding lookup
  no_file s g unset id st found =
      let w = g.sound.weak in
      let e = w.expected id st found in
      let (empty, _) = w.unset unset in elim (none-some (sym (ap (lookup id) empty) ∙ e.listed)) [ ]

  IsTesting-of :
      (m : TransferManifest) (s : Receiver)
      → Going s
      → s.manifest ≡ none
      → IsTesting m
          (record s { manifest = some m; expected_files = expect_files m.files s.expected_files })
  IsTesting-of m s g unset =
      let w = g.sound.weak in
      let (empty, unseen) = w.unset unset in
      record {
        stops = record {
          weak = record {
            files = w.files;
            expected = λ id st found. elim (no_file s g unset id st found) [ ];
            unset = λ h. cc;
            all_seen = λ seen. ground (arith, seen, unseen);
            distinct = w.distinct;
            finished = λ completed. ground (arith, completed, g.running);
          };
          running = g.running;
        };
        set = refl;
        expects = ap (expect_files m.files) empty;
        watched = g.sound.watched;
      }

  tested-Sound :
      (m : TransferManifest) (s : Receiver)
      → IsTesting m s
      → matches_accepted is_format sha256 accepted m ≡ true
      → Going s
  tested-Sound m s t matches = record {
    sound = record {
      weak = t.stops.weak;
      agreed = λ unfailed n set.
          subst (IsAgreed is_format sha256 accepted s) (some_eq (sym t.set ∙ set))
            (record { matches = matches; expects = t.expects });
      watched = t.watched;
    };
    running = t.stops.running;
  }

  total-Going :
      (m : TransferManifest) (s : Receiver)
      → Going s
      → Going (record s { total_bytes = m.total_bytes })
  total-Going m s g =
      let w = g.sound.weak in
      record {
        sound = record {
          weak = record {
            files = w.files;
            expected = w.expected;
            unset = w.unset;
            all_seen = w.all_seen;
            distinct = w.distinct;
            finished = λ completed. ground (arith, g.running, completed);
          };
          agreed = λ unfailed m set.
              let a = g.sound.agreed unfailed m set in
              record { matches = a.matches; expects = a.expects };
          watched = g.sound.watched;
        };
        running = g.running;
      }

  pub on_manifest-Runs :
      (m : TransferManifest)
      → Runs Going (λ u s. Going s) Stops (on_manifest is_format sha256 accepted m)
  unfolding on_manifest
  on_manifest-Runs m =
      let stops : (s : Receiver) → Going s → Stops s =
        ends is_format sha256 accepted (Goes-Kept is_format sha256 accepted) in
      Runs-bind Runs-current (λ r.
        Runs-bind (Runs-require (is_nothing r.manifest) (λ s (g, e). stops s g)) (λ u.
          Runs-bind {Q = λ v s. IsTesting m s}
            (Runs-change
              (λ s. record s {
                manifest = some m;
                expected_files = expect_files m.files s.expected_files;
              })
              (λ s ((g, e), h).
                IsTesting-of m s g
                  (nothing-none s.manifest (subst (λ t. is_nothing t.manifest ≡ true) e h))))
            (λ v.
              Runs-bind
                (Runs-require
                  (passes (assert_manifest_within_limits is_format (offered_manifest m)))
                  (λ s t. t.stops))
                (λ w.
                  Runs-bind
                    (Runs-require (matches_accepted is_format sha256 accepted m)
                      (λ s (t, e). t.stops))
                    (λ x.
                      Runs-change (λ s. record s { total_bytes = m.total_bytes })
                        (λ s ((t, e), h). total-Going m s (tested-Sound m s t h)))))))
