-- ===== src/Cli/Receiver/Beginning.antt =====
-- cli/transfer.ts: the beginning of a file, in `handleControlMessage`.
use p2p_transfer.Base.{
  ℕ, ◌≡◌, refl, sym, ◌∙◌, subst, ap, Bool, true, ◌&&◌, Option, none, some, List, Text, nat, ◌==◌,
  if◌then◌else◌, length, Map, lookup, IsDistinct-insert, nat_eq, arith, Bool-cases, Option-cases,
  Every-insert, inl, inr,
}
use p2p_transfer.Shared.Messages.{FileManifest, FileManifestEntry}
use p2p_transfer.Cli.Receiver.{
  FileState, Receiver, map_files, fail_transfer, final_cleanup, clean_file, Meanwhile, nothing,
  failure, failure_cleaned, meanwhile,
}
use p2p_transfer.Cli.Receiver.Triples.{
  Runs, Runs-found_in, lookup-map_files-some, IsSoundFile, IsExpected,
}
use p2p_transfer.Cli.Receiver.Tasks.{Answers}
use p2p_transfer.Cli.Receiver.Triples.{Runs-bind, Runs-require}
use p2p_transfer.Cli.Receiver.Steps.{fail_transfer-files}
use p2p_transfer.Cli.Receiver.Keeping.{meanwhile-Running}
use p2p_transfer.Cli.Receiver.Primitives.{Ends, Goes, Kept, ends}
use p2p_transfer.Base.{same_text, ltb}
use p2p_transfer.Cli.Receiver.Primitives.{Runs-from, Runs-change, Runs-await, Goes-Kept}
use p2p_transfer.Base.{insert, size, lookup-insert, ltb, same_text}
use p2p_transfer.Shared.Limits.{assert_file_within_limits}
use p2p_transfer.Shared.Transfer.{passes, same_number}
use p2p_transfer.Shared.Transfer.Matching.{same_number-eq}
use p2p_transfer.Shared.Control.{is_nothing, ready}
use p2p_transfer.Cli.Receiver.Handlers.{new_file, on_file_begin, is_manifest_set}
use p2p_transfer.Cli.Receiver.Tasks.{Reservation}
use p2p_transfer.Cli.Receiver.Primitives.{Runs-current, Runs-send_control}
use p2p_transfer.Cli.Receiver.Opening.{none-some, nothing-none}

meanwhile-expected :
    (m : Meanwhile) (s : Receiver) → (meanwhile m s).expected_files ≡ s.expected_files
unfolding meanwhile final_cleanup fail_transfer
meanwhile-expected nothing s = refl
meanwhile-expected (failure notified) s = ground arith
meanwhile-expected (failure_cleaned notified removed) s = ground arith

absent-map_files :
    (f : ℕ → FileState → FileState) (id : ℕ) (files : Map ℕ FileState)
    → lookup id files ≡ none
    → lookup id (map_files f files) ≡ none
absent-map_files f id files h = elim (Option-cases (lookup id (map_files f files))) [
  | inl e ↦ e
  | inr (new, e) ↦
      let (st, found, _) = lookup-map_files-some f id new files e in
      elim (none-some (sym h ∙ found)) [ ]
]

meanwhile-absent :
    (id : ℕ) (m : Meanwhile) (s : Receiver)
    → lookup id s.files ≡ none
    → lookup id (meanwhile m s).files ≡ none
unfolding meanwhile final_cleanup
meanwhile-absent id nothing s h = h
meanwhile-absent id (failure notified) s h = ap (lookup id) (fail_transfer-files notified s) ∙ h
meanwhile-absent id (failure_cleaned notified removed) s h =
    let t = fail_transfer notified s in
    absent-map_files (λ id st. clean_file t.failed t.completed (removed id) st) id t.files
      (ap (lookup id) (fail_transfer-files notified s) ∙ h)

module _ (is_format : ℕ → Bool) (sha256 : List ℕ → Text) (accepted : Option FileManifest) where
  -- The file that is about to begin.
  record IsOpening (id : ℕ) (entry : FileManifestEntry) (size : ℕ) (s : Receiver) : Type 0 where
    pub goes : Goes is_format sha256 accepted s
    pub absent : lookup id s.files ≡ none
    pub listed : lookup id s.expected_files ≡ some entry
    pub sized : entry.size ≡ nat size

  IsOpening-Kept :
      (id : ℕ) (entry : FileManifestEntry) (size : ℕ)
      → Kept is_format sha256 accepted (IsOpening id entry size)
  IsOpening-Kept id entry size = record {
    runs = λ s o. o.goes;
    kept = λ m s o. record {
      goes = meanwhile-Running is_format sha256 accepted m s o.goes;
      absent = meanwhile-absent id m s o.absent;
      listed = ap (lookup id) (meanwhile-expected m s) ∙ o.listed;
      sized = o.sized;
    };
    resent = λ s sent o. record {
      goes = (Goes-Kept is_format sha256 accepted).resent s sent o.goes;
      absent = o.absent;
      listed = o.listed;
      sized = o.sized;
    };
  }

  new_file-Sound :
      (size : ℕ) (r : Reservation size) → IsSoundFile is_format sha256 accepted (new_file size r)
  unfolding new_file
  new_file-Sound size r = record {
    measured = refl;
    bounded = r.within;
    verified = λ d. ground (arith, d);
    held = λ d. ground (arith, d);
  }

  new_file-size : (size : ℕ) (r : Reservation size) → (new_file size r).size ≡ size
  unfolding new_file
  new_file-size size r = refl

  begun-Going :
      (id : ℕ) (entry : FileManifestEntry) (size : ℕ) (r : Reservation size) (s : Receiver)
      → IsOpening id entry size s
      → Goes is_format sha256 accepted (record s { files = insert id (new_file size r) s.files })
  begun-Going id entry size r s o =
      let w = o.goes.sound.weak in
      let fresh = new_file size r in
      record {
        sound = record {
          weak = record {
            files =
                Every-insert (λ k st. IsSoundFile is_format sha256 accepted st) id fresh s.files
                  (new_file-Sound size r) w.files;
            expected =
                Every-insert (IsExpected is_format sha256 accepted s.expected_files) id fresh
                  s.files
                  (record {
                    entry = entry;
                    listed = o.listed;
                    sized = o.sized ∙ ap nat (sym (new_file-size size r));
                  })
                  w.expected;
            unset = w.unset;
            distinct = IsDistinct-insert id fresh s.files w.distinct;
            all_seen = λ seen k e listed.
                let old = w.all_seen seen k e listed in
                elim (Bool-cases (id == k)) [
                  | inl same ↦ record {
                    state = fresh;
                    stored = lookup-insert id k fresh s.files ∙ (rw same refl);
                  }
                  | inr apart ↦ record {
                    state = old.state;
                    stored = lookup-insert id k fresh s.files ∙ (rw apart old.stored);
                  }
                ];
            finished = λ completed. ground (arith, o.goes.running, completed);
          };
          agreed = λ unfailed m set.
              let a = o.goes.sound.agreed unfailed m set in
              record { matches = a.matches; expects = a.expects };
          watched = o.goes.sound.watched;
        };
        running = o.goes.running;
      }

  IsOpening-of :
      (id size : ℕ) (name : Text) (entry : FileManifestEntry) (r s : Receiver)
      → Goes is_format sha256 accepted s
      → r ≡ s
      → lookup id r.expected_files ≡ some entry
      → is_nothing (lookup id r.files) ≡ true
      → (same_text entry.name name && same_number entry.size (nat size)) ≡ true
      → IsOpening id entry size s
  IsOpening-of id size name entry r s g same listed absent matches = record {
    goes = g;
    absent =
        nothing-none (lookup id s.files)
          (subst (λ t. is_nothing (lookup id t.files) ≡ true) same absent);
    listed = subst (λ t. lookup id t.expected_files ≡ some entry) same listed;
    sized = same_number-eq entry.size (nat size) (ground (arith, matches));
  }

  pub on_file_begin-Runs :
      (env : Answers) (id : ℕ) (name : Text) (size : ℕ)
      → Runs
          (Goes is_format sha256 accepted)
          (λ u s. Goes is_format sha256 accepted s)
          (Ends is_format sha256 accepted)
          (on_file_begin is_format sha256 accepted env id name size)
  unfolding on_file_begin
  on_file_begin-Runs env id name size =
      let kept = Goes-Kept is_format sha256 accepted in
      let stops : (s : Receiver)
          → Goes is_format sha256 accepted s
          → Ends is_format sha256 accepted s =
        ends is_format sha256 accepted kept in
      Runs-bind Runs-current (λ r.
        Runs-bind (Runs-require (is_manifest_set r) (λ s (g, e). stops s g)) (λ u.
          Runs-bind (Runs-found_in (lookup id r.expected_files) (λ s ((g, e), h). stops s g))
            (λ entry.
              Runs-bind
                (Runs-require (is_nothing (lookup id r.files)) (λ s (((g, e), h), k). stops s g))
                (λ v.
                  Runs-bind
                    (Runs-require (same_text entry.name name && same_number entry.size (nat size))
                      (λ s ((((g, e), h), k), l). stops s g))
                    (λ w.
                      Runs-bind
                        (Runs-require (passes (assert_file_within_limits is_format name (nat size)))
                          (λ s (((((g, e), h), k), l), m). stops s g))
                        (λ x.
                          Runs-from
                            (λ s ((((((g, e), h), k), l), m), n).
                              IsOpening-of id size name entry r s g e k l m)
                            (Runs-bind
                              (Runs-await is_format sha256 accepted (env.reserved size)
                                (IsOpening-Kept id entry size))
                              (λ reservation.
                                Runs-bind {Q = λ y s. Goes is_format sha256 accepted s}
                                  (Runs-change
                                    (λ s. record s {
                                      files = insert id (new_file size reservation) s.files;
                                    })
                                    (λ s o. begun-Going id entry size reservation s o))
                                  (λ y.
                                    Runs-send_control is_format sha256 accepted env env.sealed_ready
                                      (if ltb 0 (length reservation.resumed)
                                        then ready id (some (length reservation.resumed))
                                            (some (sha256 reservation.resumed))
                                        else ready id none none)
                                      kept)))))))))
