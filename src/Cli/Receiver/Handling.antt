-- ===== src/Cli/Receiver/Handling.antt =====
-- cli/transfer.ts: every control message keeps the invariant of `receiveFiles`.
use p2p_transfer.Base.{
  ℕ, ◌≡◌, refl, sym, ◌∙◌, subst, Bool, true, false, not, ◌||◌, Option, none, some, List, [], Text,
  ◌==◌, lookup, nat_eq, arith,
}
use p2p_transfer.Shared.Messages.{FileManifest}
use p2p_transfer.Cli.Receiver.{FileState, Receiver, Task}
use p2p_transfer.Cli.Receiver.Triples.{Runs, Runs-found_in, IsSound}
use p2p_transfer.Shared.Control.{ControlMessage}
use p2p_transfer.Cli.Receiver.Tasks.{Answers}
use p2p_transfer.Cli.Receiver.Triples.{Runs-bind, Runs-require}
use p2p_transfer.Cli.Receiver.Steps.{Stable}
use p2p_transfer.Cli.Receiver.Primitives.{Runs-weaker, Ends, Goes, Kept, ends, GoesAt, GoesAt-Kept}
use p2p_transfer.Shared.Control.{file_ok}
use p2p_transfer.Cli.Receiver.Primitives.{
  Runs-from, Runs-change, Runs-throw, Runs-await, Runs-stop, Runs-file_of, Goes-Kept,
}
use p2p_transfer.Cli.Receiver.Changes.{Runs-update}
use p2p_transfer.Shared.Control.{all_done_ok}
use p2p_transfer.Base.{size}
use p2p_transfer.Shared.Control.{is_nothing, manifest, file_begin, ready, restart, file_end}
use p2p_transfer.Cli.Receiver.Handlers.{is_manifest_set}
use p2p_transfer.Cli.Receiver.Primitives.{Runs-current, Runs-send_control}
use p2p_transfer.Base.{lookup_covers}
use p2p_transfer.Shared.Control.{ControlMessage, assert_control_message, all_done, abort}
use p2p_transfer.Cli.Receiver.Handlers.{
  on_restart, on_file_end, on_all_done, on_message, control_task, message_of,
}
use p2p_transfer.Cli.Receiver.Publishing.{maybe_finalize-Runs}
use p2p_transfer.Cli.Receiver.Completing.{maybe_resolve_done-Runs}
use p2p_transfer.Cli.Receiver.Opening.{on_manifest-Runs, none-some, nothing-none}
use p2p_transfer.Cli.Receiver.Beginning.{on_file_begin-Runs}

-- A file that is not done, and one that no digest has come for.
pub record IsUndone (st : FileState) : Type 0 where
  pub undone : st.done ≡ false

record IsUnnamed (st : FileState) : Type 0 where
  pub unnamed : st.expected_sha256 ≡ none

pub IsUndone-Stable : Stable IsUndone
IsUndone-Stable st p q h = record { undone = h.undone }

module _ (is_format : ℕ → Bool) (sha256 : List ℕ → Text) (accepted : Option FileManifest) where
  abbrev Stops : Receiver → Type 0
  Stops = Ends is_format sha256 accepted

  abbrev Going : Receiver → Type 0
  Going = Goes is_format sha256 accepted

  abbrev Has : (FileState → Type 0) → ℕ → Receiver → Type 0
  Has = GoesAt is_format sha256 accepted

  abbrev Settled : Receiver → Type 0
  Settled = IsSound is_format sha256 accepted

  kept : Kept is_format sha256 accepted Going
  kept = Goes-Kept is_format sha256 accepted

  pub stops : (s : Receiver) → Going s → Stops s
  stops = ends is_format sha256 accepted kept

  going :
      {A : Type 0} {P : Receiver → Type 0} {task : Task A}
      → Runs P (λ u s. Going s) Stops task
      → Runs P (λ u s. Settled s) Stops task
  going h = Runs-weaker (λ u s g. g.sound) h

  pub Has-of :
      (φ : FileState → Type 0) (id : ℕ) (st : FileState) (s : Receiver)
      → Going s
      → lookup id s.files ≡ some st
      → φ st
      → Has φ id s
  Has-of φ id st s g found h = record {
    goes = g;
    file = record { state = st; stored = found; holds = h };
  }

  on_restart-Runs :
      (env : Answers) (id : ℕ)
      → Runs Going (λ u s. Going s) Stops (on_restart is_format sha256 accepted env id)
  unfolding on_restart
  on_restart-Runs env id = Runs-bind (Runs-file_of is_format sha256 accepted id kept) (λ st.
      Runs-bind
        (Runs-require (not (st.done || not (is_nothing st.expected_sha256)))
          (λ s (g, found). stops s g))
        (λ u.
          Runs-from
            (λ s ((g, found), e).
              Has-of IsUndone id st s g found (record { undone = ground (arith, e) }))
            (Runs-bind
              (Runs-await is_format sha256 accepted env.reopened
                (GoesAt-Kept is_format sha256 accepted IsUndone-Stable))
              (λ v.
                Runs-bind
                  (Runs-weaker (λ w s h. h.goes)
                    (Runs-update is_format sha256 accepted {ψ = IsUndone} id
                      (λ st. record st { hashed = []; bytes = 0; expected_seq = 0 })
                      (λ st h w. record {
                        measured = refl;
                        bounded = omega arith;
                        verified = λ d. ground (arith, d, h.undone);
                        held = w.held;
                      })
                      (λ st h. record { undone = h.undone }) (λ st. refl)))
                  (λ w.
                    Runs-send_control is_format sha256 accepted env env.sealed_ready
                      (ready id none none) kept)))))

  on_file_end-Runs :
      (env : Answers) (id : ℕ) (digest : Text)
      → Runs Going (λ u s. Settled s) Stops (on_file_end is_format sha256 accepted env id digest)
  unfolding on_file_end
  on_file_end-Runs env id digest = Runs-bind (Runs-file_of is_format sha256 accepted id kept) (λ st.
      Runs-bind (Runs-require (is_nothing st.expected_sha256) (λ s (g, found). stops s g)) (λ u.
        Runs-from
          (λ s ((g, found), e).
            Has-of IsUnnamed id st s g found
              (record { unnamed = nothing-none st.expected_sha256 e }))
          (Runs-bind
            (Runs-weaker (λ w s h. h.goes)
              (Runs-update is_format sha256 accepted {ψ = λ st. Unit {0}} id
                (λ st. record st { expected_sha256 = some digest })
                (λ st h w. record {
                  measured = w.measured;
                  bounded = w.bounded;
                  held = w.held;
                  verified = λ d. elim (none-some (sym h.unnamed ∙ (w.verified d).digest)) [ ];
                })
                (λ st h. tt) (λ st. refl)))
            (λ w.
              Runs-bind (maybe_finalize-Runs is_format sha256 accepted env id)
                (λ x. maybe_resolve_done-Runs is_format sha256 accepted env)))))

  seen-Going :
      (s : Receiver)
      → Going s
      → is_manifest_set s ≡ true
      → (size s.files == size s.expected_files) ≡ true
      → Going (record s { all_done_seen = true })
  seen-Going s g set sizes =
      let w = g.sound.weak in
      record {
        sound = record {
          weak = record {
            files = w.files;
            expected = w.expected;
            unset = λ unset. ground (arith, set, unset);
            distinct = w.distinct;
            all_seen = λ seen id entry listed.
                let (st, stored) =
                  lookup_covers s.files s.expected_files w.distinct (ground (arith, sizes))
                    (λ k st found. let e = w.expected k st found in (e.entry, e.listed)) id entry
                    listed in
                record { state = st; stored = stored };
            finished = λ completed. ground (arith, g.running, completed);
          };
          agreed = λ unfailed m is.
              let a = g.sound.agreed unfailed m is in
              record { matches = a.matches; expects = a.expects };
          watched = g.sound.watched;
        };
        running = g.running;
      }

  on_all_done-Runs :
      (env : Answers)
      → Runs Going (λ u s. Settled s) Stops (on_all_done is_format sha256 accepted env)
  unfolding on_all_done
  on_all_done-Runs env = Runs-bind Runs-current (λ r.
      Runs-bind (Runs-require (is_manifest_set r) (λ s (g, e). stops s g)) (λ u.
        Runs-bind (Runs-require (not r.all_done_seen) (λ s ((g, e), h). stops s g)) (λ v.
          Runs-bind
            (Runs-require (size r.files == size r.expected_files) (λ s (((g, e), h), k). stops s g))
            (λ w.
              Runs-bind {Q = λ x s. Going s}
                (Runs-change (λ s. record s { all_done_seen = true })
                  (λ s ((((g, e), h), k), l).
                    seen-Going s g (subst (λ t. is_manifest_set t ≡ true) e h)
                      (subst (λ t. (size t.files == size t.expected_files) ≡ true) e l)))
                (λ x. maybe_resolve_done-Runs is_format sha256 accepted env)))))

  on_message-Runs :
      (env : Answers) (m : ControlMessage)
      → Runs Going (λ u s. Settled s) Stops (on_message is_format sha256 accepted env m)
  unfolding on_message
  on_message-Runs env (manifest m) = going (on_manifest-Runs is_format sha256 accepted m)
  on_message-Runs env (file_begin id name size) =
      going (on_file_begin-Runs is_format sha256 accepted env id name size)
  on_message-Runs env (restart id) = going (on_restart-Runs env id)
  on_message-Runs env (file_end id digest) = on_file_end-Runs env id digest
  on_message-Runs env all_done = on_all_done-Runs env
  on_message-Runs env (ready id offset prefix) = Runs-throw stops
  on_message-Runs env (file_ok id) = Runs-throw stops
  on_message-Runs env all_done_ok = Runs-throw stops
  on_message-Runs env (abort reason) = Runs-throw stops

  pub control_task-Runs :
      (env : Answers)
      → Runs Going (λ u s. Settled s) Stops (control_task is_format sha256 accepted env)
  unfolding control_task
  control_task-Runs env =
      Runs-bind (Runs-await is_format sha256 accepted env.opened kept) (λ opened.
        Runs-bind
          (Runs-found_in (message_of (assert_control_message is_format opened)) (λ s g. stops s g))
          (λ message.
            Runs-bind (Runs-from (λ s (g, e). g) (Runs-stop is_format sha256 accepted kept))
              (λ u. Runs-from (λ s (g, e). g) (on_message-Runs env message))))
