-- ===== src/Cli/Receiver/Keeping.antt =====
-- cli/transfer.ts: the steps of a task keep the invariant of `receiveFiles`.
use p2p_transfer.Base.{
  ◌⊎◌, ℕ, ◌≡◌, refl, sym, ◌∙◌, subst, ap, Bool, true, false, Option, some, List, Text, nat_eq,
  arith, Bool-cases, inl, inr,
}
use p2p_transfer.Shared.Messages.{FileManifest}
use p2p_transfer.Cli.Receiver.{
  FileState, Receiver, stopped, fail_transfer, final_cleanup, clean_file, Meanwhile, nothing,
  failure, failure_cleaned, meanwhile,
}
use p2p_transfer.Cli.Receiver.Triples.{IsSoundFile, IsWeak, IsAgreed, IsSound, IsThrown, IsRunning}
use p2p_transfer.Shared.Transfer.{TransferManifest}
use p2p_transfer.Cli.Receiver.Steps.{
  IsRepublished-clean, held-clean, republished, IsFileChange, map_files-IsWeak,
}

module _ (is_format : ℕ → Bool) (sha256 : List ℕ → Text) (accepted : Option FileManifest) where
  abbrev pub Weak : Receiver → Type 0
  Weak = IsWeak is_format sha256 accepted

  abbrev pub Sound : Receiver → Type 0
  Sound = IsSound is_format sha256 accepted

  abbrev pub Thrown : Receiver → Type 0
  Thrown = IsThrown is_format sha256 accepted

  abbrev pub Running : Receiver → Type 0
  Running = IsRunning is_format sha256 accepted

  pub fail_transfer-Weak :
      (notified : Bool) (s : Receiver) → Weak s → Weak (fail_transfer notified s)
  unfolding fail_transfer
  fail_transfer-Weak notified s w = elim (Bool-cases (stopped s)) [
    | inl e ↦ rw e w
    | inr e ↦ rw e (record {
      files = w.files;
      expected = w.expected;
      unset = w.unset;
      all_seen = w.all_seen;
      distinct = w.distinct;
      finished = λ completed. ground (arith, e, completed);
    })
  ]

  fail_transfer-facts :
      (notified : Bool) (s : Receiver)
      → let t = fail_transfer notified s in
        (t.completed ≡ s.completed)
        × (stopped t ≡ true)
        × ((t.failed ≡ true) ⊎ (t ≡ s))
        × (t.manifest ≡ s.manifest)
  unfolding fail_transfer
  fail_transfer-facts notified s = ground arith

  pub fail_transfer-Sound :
      (notified : Bool) (s : Receiver) → Sound s → Sound (fail_transfer notified s)
  fail_transfer-Sound notified s v =
      let (_, ends, fails, _) = fail_transfer-facts notified s in
      record {
        weak = fail_transfer-Weak notified s v.weak;
        agreed = elim fails [
          | inl failed ↦ λ unfailed. ground (arith, failed, unfailed)
          | inr same ↦
              subst
                (λ t.
                  t.failed ≡ false
                  → (m : TransferManifest) → t.manifest ≡ some m
                  → IsAgreed is_format sha256 accepted t m)
                (sym same) v.agreed
        ];
        watched = λ running. ground (arith, ends, running);
      }

  -- A task that throws ends in a failure.
  failed_of :
      (notified : Bool) (s : Receiver)
      → s.completed ≡ false
      → (fail_transfer notified s).failed ≡ true
  unfolding fail_transfer
  failed_of notified s running = ground arith

  pub Thrown-Sound : (notified : Bool) (s : Receiver) → Thrown s → Sound (fail_transfer notified s)
  Thrown-Sound notified s t =
      let failed = failed_of notified s t.running in
      let (_, ends, _, _) = fail_transfer-facts notified s in
      record {
        weak = fail_transfer-Weak notified s t.weak;
        agreed = λ unfailed. ground (arith, failed, unfailed);
        watched = λ running. ground (arith, ends, running);
      }

  pub republished-Sound :
      (p q : Bool) (st : FileState)
      → (q ≡ true → p ≡ true)
      → IsSoundFile is_format sha256 accepted st
      → IsSoundFile is_format sha256 accepted (republished p q st)
  republished-Sound p q st held v = record {
    measured = v.measured;
    bounded = v.bounded;
    held = held;
    verified = λ d. record { digest = (v.verified d).digest; whole = (v.verified d).whole };
  }

  cleaned_file :
      (failed completed removed : Bool) (st : FileState)
      → IsSoundFile is_format sha256 accepted st
      → IsSoundFile is_format sha256 accepted (clean_file failed completed removed st)
  cleaned_file failed completed removed st v =
      let r = IsRepublished-clean failed completed removed st in
      let held = held-clean failed completed removed st v.held in
      subst (IsSoundFile is_format sha256 accepted) (sym r.same) (
        republished-Sound r.now_published r.now_present st
          (λ q. ap (λ x. x.published) (sym r.same) ∙ held (ap (λ x. x.present) r.same ∙ q)) v)

  cleaned-FileChange :
      (removed : ℕ → Bool) (s : Receiver)
      → IsFileChange is_format sha256 accepted s
          (λ id st. clean_file s.failed s.completed (removed id) st)
  cleaned-FileChange removed s = record {
    keeps = λ id st found v. cleaned_file s.failed s.completed (removed id) st v;
    same_size =
        λ id st. ap (λ x. x.size) (IsRepublished-clean s.failed s.completed (removed id) st).same;
    still_done = λ completed id st done.
        ap (λ x. x.done) (IsRepublished-clean s.failed s.completed (removed id) st).same ∙ done;
  }

  pub final_cleanup-Sound :
      (removed : ℕ → Bool) (s : Receiver)
      → stopped s ≡ true
      → Sound s
      → Sound (final_cleanup removed s)
  unfolding final_cleanup
  final_cleanup-Sound removed s ends v =
      let w =
        map_files-IsWeak is_format sha256 accepted s _ (cleaned-FileChange removed s) v.weak in
      record {
        weak = record {
          files = w.files;
          expected = w.expected;
          unset = w.unset;
          all_seen = w.all_seen;
          distinct = w.distinct;
          finished = λ completed.
              let fin = w.finished completed in
              record { seen = fin.seen; done = fin.done; unfailed = fin.unfailed };
        };
        agreed = λ unfailed m set.
            let a = v.agreed unfailed m set in record { matches = a.matches; expects = a.expects };
        watched = λ running. ground (arith, ends, running);
      }

  completed-cleanup :
      (removed : ℕ → Bool) (s : Receiver) → (final_cleanup removed s).completed ≡ s.completed
  unfolding final_cleanup
  completed-cleanup removed s = refl

  pub meanwhile-Running : (m : Meanwhile) (s : Receiver) → Running s → Running (meanwhile m s)
  unfolding meanwhile
  meanwhile-Running nothing s r = r
  meanwhile-Running (failure notified) s r =
      let (same, _, _, _) = fail_transfer-facts notified s in
      record { sound = fail_transfer-Sound notified s r.sound; running = same ∙ r.running }
  meanwhile-Running (failure_cleaned notified removed) s r =
      let (same, ends, _, _) = fail_transfer-facts notified s in
      record {
        sound =
            final_cleanup-Sound removed (fail_transfer notified s) ends
              (fail_transfer-Sound notified s r.sound);
        running = completed-cleanup removed (fail_transfer notified s) ∙ same ∙ r.running;
      }
