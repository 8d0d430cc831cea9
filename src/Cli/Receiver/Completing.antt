-- ===== src/Cli/Receiver/Completing.antt =====
-- cli/transfer.ts: `maybeResolveDone` completes a transfer whose files are done.
use p2p_transfer.Base.{
  ℕ, ◌≡◌, refl, ◌∙◌, subst, ap, Bool, true, false, not, ◌&&◌, Option, some, List, [], ◌∷◌, ◌++◌,
  Text, ◌==◌, Map, lookup, Every, nat_eq, arith, Bool-cases, inl, inr,
}
use p2p_transfer.Shared.Messages.{FileManifest}
use p2p_transfer.Cli.Receiver.{
  FileState, Receiver, stopped, map_files, fail_transfer, final_cleanup, clean_file, Meanwhile,
  nothing, failure, failure_cleaned, meanwhile, Await, await, throw_if_receive_stopped,
}
use p2p_transfer.Cli.Receiver.Triples.{Runs, IsWeak, IsSound}
use p2p_transfer.Cli.Receiver.Handlers.{matches_accepted, expect_files}
use p2p_transfer.Shared.Transfer.{TransferManifest}
use p2p_transfer.Shared.Control.{ControlMessage}
use p2p_transfer.Cli.Receiver.Tasks.{Answers, send, send_control}
use p2p_transfer.Cli.Receiver.Triples.{Runs-bind, Runs-require}
use p2p_transfer.Cli.Receiver.Steps.{IsRepublished-clean, fail_transfer-files}
use p2p_transfer.Cli.Receiver.{value}
use p2p_transfer.Cli.Receiver.Keeping.{meanwhile-Running}
use p2p_transfer.Cli.Receiver.Primitives.{Ends, Goes}
use p2p_transfer.Cli.Receiver.Primitives.{
  Runs-change, Goes-Kept, if-After, found_in-After, require-After,
}
use p2p_transfer.Cli.Receiver.Tasks.{resolve_done, maybe_resolve_done, all_files_done}
use p2p_transfer.Shared.Control.{all_done_ok}

all_files_done-Every :
    (files : Map ℕ FileState) → all_files_done files ≡ true → Every (λ id st. st.done ≡ true) files
unfolding all_files_done lookup
all_files_done-Every [] h id st found = ground arith
all_files_done-Every ((j, old) ∷ files) h id st found = elim (Bool-cases (j == id)) [
  | inl e ↦ ground arith
  | inr e ↦ all_files_done-Every files (ground arith) id st (ground arith)
]

all_files_done-map_files :
    (f : ℕ → FileState → FileState) (files : Map ℕ FileState)
    → ((id : ℕ) (st : FileState) → (f id st).done ≡ st.done)
    → all_files_done (map_files f files) ≡ all_files_done files
unfolding all_files_done map_files
all_files_done-map_files f [] h = refl
all_files_done-map_files f ((j, old) ∷ files) h = rw (h j old, all_files_done-map_files f files h)

meanwhile-done :
    (m : Meanwhile) (s : Receiver) → all_files_done (meanwhile m s).files ≡ all_files_done s.files
unfolding meanwhile final_cleanup
meanwhile-done nothing s = refl
meanwhile-done (failure notified) s = ap all_files_done (fail_transfer-files notified s)
meanwhile-done (failure_cleaned notified removed) s =
    let t = fail_transfer notified s in
    all_files_done-map_files (λ id st. clean_file t.failed t.completed (removed id) st) t.files
      (λ id st. ap (λ x. x.done) (IsRepublished-clean t.failed t.completed (removed id) st).same)
    ∙ ap all_files_done (fail_transfer-files notified s)

meanwhile-seen : (m : Meanwhile) (s : Receiver) → (meanwhile m s).all_done_seen ≡ s.all_done_seen
unfolding meanwhile final_cleanup fail_transfer
meanwhile-seen nothing s = refl
meanwhile-seen (failure notified) s = ground arith
meanwhile-seen (failure_cleaned notified removed) s = ground arith

-- Only the timer differs.
timed : Bool → Receiver → Receiver
timed b s = record s { idle_timer = b }

meanwhile-timed :
    (m : Meanwhile) (s : Receiver)
    → timed false (meanwhile m (timed true s)) ≡ timed false (meanwhile m s)
unfolding meanwhile final_cleanup fail_transfer timed
meanwhile-timed nothing s = refl
meanwhile-timed (failure notified) s = elim (Bool-cases (stopped s)) [
  | inl e ↦ simp e refl
  | inr e ↦ simp e refl
]
meanwhile-timed (failure_cleaned notified removed) s = elim (Bool-cases (stopped s)) [
  | inl e ↦ simp e refl
  | inr e ↦ simp e refl
]

module _ (is_format : ℕ → Bool) (sha256 : List ℕ → Text) (accepted : Option FileManifest) where
  abbrev Stops : Receiver → Type 0
  Stops = Ends is_format sha256 accepted

  -- The state while the last message is sealed, without the timer.
  record IsDraining (s : Receiver) : Type 0 where
    pub timed_goes : Goes is_format sha256 accepted (timed true s)
    pub seen : s.all_done_seen ≡ true
    pub done : all_files_done s.files ≡ true

  retimed :
      (b c : Bool) (s : Receiver)
      → IsWeak is_format sha256 accepted (timed b s)
      → IsWeak is_format sha256 accepted (timed c s)
  unfolding timed
  retimed b c s w = record {
    files = w.files;
    expected = w.expected;
    unset = w.unset;
    all_seen = w.all_seen;
    distinct = w.distinct;
    finished = λ completed.
        let fin = w.finished completed in
        record { seen = fin.seen; done = fin.done; unfailed = fin.unfailed };
  }

  -- The invariant without the timer.
  record IsCalm (s : Receiver) : Type 0 where
    pub weak : IsWeak is_format sha256 accepted (timed false s)
    pub agreed :
        s.failed ≡ false
        → (m : TransferManifest) → s.manifest ≡ some m
        → (matches_accepted is_format sha256 accepted m ≡ true)
          × (s.expected_files ≡ expect_files m.files [])
    pub running : s.completed ≡ false

  calm : (s : Receiver) → Goes is_format sha256 accepted s → IsCalm (timed false s)
  unfolding timed
  calm s g = record {
    weak = retimed s.idle_timer false s g.sound.weak;
    agreed = λ unfailed m set. let a = g.sound.agreed unfailed m set in (a.matches, a.expects);
    running = g.running;
  }

  uncalm : (s : Receiver) → IsCalm (timed false s) → Goes is_format sha256 accepted (timed true s)
  unfolding timed
  uncalm s c = record {
    sound = record {
      weak = retimed false true s c.weak;
      agreed = λ unfailed m set.
          let (a, b) = c.agreed unfailed m set in record { matches = a; expects = b };
      watched = λ going. refl;
    };
    running = c.running;
  }

  IsDraining-Stops : (s : Receiver) → IsDraining s → Stops s
  unfolding timed
  IsDraining-Stops s d = record {
    weak = retimed true s.idle_timer s d.timed_goes.sound.weak;
    running = d.timed_goes.running;
  }

  IsDraining-meanwhile : (m : Meanwhile) (s : Receiver) → IsDraining s → IsDraining (meanwhile m s)
  IsDraining-meanwhile m s d =
      let g = meanwhile-Running is_format sha256 accepted m (timed true s) d.timed_goes in
      record {
        timed_goes =
            uncalm (meanwhile m s)
              (subst IsCalm (meanwhile-timed m s) (calm (meanwhile m (timed true s)) g));
        seen = meanwhile-seen m s ∙ d.seen;
        done = meanwhile-done m s ∙ d.done;
      }

  completed-IsSound :
      (s : Receiver)
      → IsDraining s
      → stopped s ≡ false
      → IsSound is_format sha256 accepted (record s { completed = true })
  unfolding timed
  completed-IsSound s d going =
      let w = d.timed_goes.sound.weak in
      record {
        weak = record {
          files = w.files;
          expected = w.expected;
          unset = w.unset;
          all_seen = w.all_seen;
          distinct = w.distinct;
          finished = λ completed. record {
            seen = d.seen;
            done = all_files_done-Every s.files d.done;
            unfailed = ground (arith, going);
          };
        };
        agreed = λ unfailed m set.
            let a = d.timed_goes.sound.agreed unfailed m set in
            record { matches = a.matches; expects = a.expects };
        watched = λ h. ground (arith, h);
      }

  abbrev Drains : Receiver → Type 0
  Drains s = IsDraining s × (stopped s ≡ false)

  sent-IsDraining :
      (s : Receiver) (sent : List ControlMessage)
      → IsDraining s
      → IsDraining (record s { sent = sent })
  unfolding timed
  sent-IsDraining s sent d = record {
    timed_goes = (Goes-Kept is_format sha256 accepted).resent (timed true s) sent d.timed_goes;
    seen = d.seen;
    done = d.done;
  }

  await-Draining :
      (promise : Await (Unit {0})) → Runs IsDraining (λ u s. IsDraining s) Stops (await promise)
  unfolding await
  await-Draining promise = record {
    after = λ s d.
        let e = IsDraining-meanwhile promise.during s d in
        found_in-After promise.answer (λ u t. IsDraining t) Stops (meanwhile promise.during s)
          (λ u h. e) (IsDraining-Stops _ e);
  }

  stop-Draining : Runs IsDraining (λ u s. Drains s) Stops throw_if_receive_stopped
  unfolding throw_if_receive_stopped
  stop-Draining = record {
    after = λ s d.
        require-After (not (stopped s)) (λ u t. Drains t) Stops s (λ e. (d, ground (arith, e)))
          (IsDraining-Stops s d);
  }

  resolve_done-Runs :
      (env : Answers)
      → Runs
          (λ s.
            Goes is_format sha256 accepted s
            × (s.all_done_seen ≡ true)
            × (all_files_done s.files ≡ true))
          (λ u s. IsSound is_format sha256 accepted s)
          Stops
          (resolve_done env)
  unfolding resolve_done send_control send timed
  resolve_done-Runs env =
      Runs-bind {Q = λ u s. IsDraining s}
        (Runs-change (λ s. record s { idle_timer = false })
          (λ s (g, seen, done). record {
            timed_goes = uncalm s (calm s g);
            seen = seen;
            done = done;
          }))
        (λ u.
          Runs-bind {Q = λ v s. Drains s}
            (Runs-bind (await-Draining env.sealed_all_done_ok) (λ v. Runs-bind stop-Draining (λ w.
              Runs-bind (Runs-require (env.sends all_done_ok) (λ s (d, g). IsDraining-Stops s d))
                (λ x.
                  Runs-change (λ s. record s { sent = s.sent ++ all_done_ok ∷ [] })
                    (λ s ((d, g), e). (sent-IsDraining s _ d, g))))))
            (λ v.
              Runs-change (λ s. record s { completed = true })
                (λ s (d, g). completed-IsSound s d g)))

  pub maybe_resolve_done-Runs :
      (env : Answers)
      → Runs
          (Goes is_format sha256 accepted)
          (λ u s. IsSound is_format sha256 accepted s)
          Stops
          (maybe_resolve_done env)
  unfolding maybe_resolve_done
  maybe_resolve_done-Runs env = record {
    after = λ s g.
        if-After (s.all_done_seen && all_files_done s.files)
          (λ u t. IsSound is_format sha256 accepted t) Stops (resolve_done env s) (value tt s)
          (λ e. (resolve_done-Runs env).after s (g, ground (arith, e), ground (arith, e)))
          (λ e. g.sound);
  }
