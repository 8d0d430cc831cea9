-- ===== src/Cli/Receiver/Withdrawing.antt =====
-- cli/transfer.ts: what `maybeFinalize` leaves on the disk when the transfer fails while it waits, and the
-- final cleanup of `receiveFiles` is over before it goes on.
pub mod Steps
pub mod Outcome
use p2p_transfer.Base.{
  ℕ, ◌≡◌, refl, sym, ◌∙◌, subst, ap, Bool, true, false, not, Option, none, some, List, [], ◌∷◌,
  ◌++◌, Text, same_text, Map, lookup, if◌then◌else◌, ◌==◌, ==_refl, nat_eq, arith, Bool-cases, inl,
  inr,
}
use p2p_transfer.Cli.Receiver.{
  FileState, Receiver, stopped, fail_transfer, final_cleanup, clean_file, remove_published_file,
  map_files, Meanwhile, nothing, failure, failure_cleaned, meanwhile, Await, Run, thrown, value,
  Task, ◌>>=◌, ◌>>◌, pure, throw, require, found_in, change, await, throw_if_receive_stopped,
  file_of, at_id, update_file,
}
use p2p_transfer.Cli.Receiver.Tasks.{
  Answers, send, require_digest, cleanup_published_after_failure, check_published, publish_file,
  finalizing_over, finalize, waits_for_more, maybe_finalize,
}
use p2p_transfer.Cli.Receiver.Triples.{
  After, Runs, Runs-bind, Runs-require, Runs-found_in, lookup-map_files-some,
}
use p2p_transfer.Cli.Receiver.Primitives.{
  Runs-weaker, Runs-from, Runs-throw, Runs-change, if-After, found_in-After, require-After,
}
use p2p_transfer.Cli.Receiver.Changes.{at_id_self}
use p2p_transfer.Shared.Control.{ControlMessage, file_ok}

-- While a task waits nothing happens, or the transfer fails and the final cleanup removes what it finds.
abbrev pub IsPrompt : Meanwhile → Type 0
IsPrompt nothing = Unit
IsPrompt (failure notified) = ⊥
IsPrompt (failure_cleaned notified removed) = (id : ℕ) → removed id ≡ true

-- Such answers to the awaits of `maybeFinalize`, its own withdrawal of a published file being granted.
pub record ArePrompt (env : Answers) : Type 0 where
  pub stream_ended : IsPrompt env.stream_ended.during
  pub part_removed : IsPrompt env.part_removed.during
  pub on_disk : IsPrompt env.on_disk_sha256.during
  pub sealed : IsPrompt env.sealed_file_ok.during
  pub published_part : IsPrompt env.published_part.during
  pub published : IsPrompt env.published_sha256.during
  pub withdrawn : IsPrompt env.withdrawn.during
  pub granted : env.withdrawn.answer ≡ some tt

-- The file with an identifier, if there is one.
abbrev pub OfFile : (FileState → Type 0) → ℕ → Map ℕ FileState → Type 0
OfFile φ id files = (st : FileState) → lookup id files ≡ some st → φ st

-- It is not on the disk; it is there only with its identity known; and it is there only with its identity
-- known and in a transfer that has not failed, so that the final cleanup is still to come.
pub record IsAbsent (id : ℕ) (s : Receiver) : Type 0 where
  pub uncompleted : s.completed ≡ false
  pub absent : OfFile (λ st. st.present ≡ false) id s.files

pub record IsKnown (id : ℕ) (s : Receiver) : Type 0 where
  pub uncompleted : s.completed ≡ false
  pub known : OfFile (λ st. st.present ≡ true → st.published ≡ true) id s.files

pub record IsTidy (id : ℕ) (s : Receiver) : Type 0 where
  pub uncompleted : s.completed ≡ false
  pub tidy :
      OfFile (λ st. st.present ≡ true → (st.published ≡ true) × (s.failed ≡ false)) id s.files

pub OfFile-map :
    (φ ψ : FileState → Type 0) (f : ℕ → FileState → FileState) (id : ℕ) (files : Map ℕ FileState)
    → ((st : FileState) → φ st → ψ (f id st))
    → OfFile φ id files
    → OfFile ψ id (map_files f files)
OfFile-map φ ψ f id files step h new found =
    let (st, old, same) = lookup-map_files-some f id new files found in
    subst ψ same (step st (h st old))

pub absent-IsTidy : (id : ℕ) (s : Receiver) → IsAbsent id s → IsTidy id s
absent-IsTidy id s a = record {
  uncompleted = a.uncompleted;
  tidy = λ st found p. ground (arith, a.absent st found, p);
}

pub tidy-IsKnown : (id : ℕ) (s : Receiver) → IsTidy id s → IsKnown id s
tidy-IsKnown id s t = record {
  uncompleted = t.uncompleted;
  known = λ st found p. (t.tidy st found p).0;
}

pub known-IsTidy : (id : ℕ) (s : Receiver) → stopped s ≡ false → IsKnown id s → IsTidy id s
known-IsTidy id s going k = record {
  uncompleted = k.uncompleted;
  tidy = λ st found p. (k.known st found p, ground (arith, going));
}

-- A failure and the cleanup.
fail_transfer-facts :
    (notified : Bool) (s : Receiver)
    → s.completed ≡ false
    → let t = fail_transfer notified s in
      (t.completed ≡ false) × (t.failed ≡ true) × (t.files ≡ s.files)
unfolding fail_transfer
fail_transfer-facts notified s h = ground (arith, h)

clean-absent :
    (failed completed removed : Bool) (st : FileState)
    → st.present ≡ false
    → (clean_file failed completed removed st).present ≡ false
unfolding clean_file remove_published_file
clean-absent failed completed removed st h = ground (arith, h)

clean-removed :
    (failed completed removed : Bool) (st : FileState)
    → failed ≡ true
    → completed ≡ false
    → removed ≡ true
    → (st.present ≡ true → st.published ≡ true)
    → (clean_file failed completed removed st).present ≡ false
unfolding clean_file remove_published_file
clean-removed failed completed removed st a b c h = ground (arith, a, b, c, h)

cleaned-IsAbsent :
    (notified : Bool) (removed : ℕ → Bool) (id : ℕ) (s : Receiver)
    → ((id : ℕ) → removed id ≡ true)
    → IsKnown id s
    → IsAbsent id (final_cleanup removed (fail_transfer notified s))
unfolding final_cleanup
cleaned-IsAbsent notified removed id s all k =
    let t = fail_transfer notified s in
    let (same, failed, files) = fail_transfer-facts notified s k.uncompleted in
    record {
      uncompleted = same;
      absent =
          OfFile-map (λ st. st.present ≡ true → st.published ≡ true) (λ st. st.present ≡ false)
            (λ id st. clean_file t.failed t.completed (removed id) st) id t.files
            (λ st h. clean-removed t.failed t.completed (removed id) st failed same (all id) h)
            (subst (OfFile (λ st. st.present ≡ true → st.published ≡ true) id) (sym files) k.known);
    }

-- What prompt answers keep.
pub record IsTold (P : Receiver → Type 0) (id : ℕ) : Type 0 where
  pub tidy : (s : Receiver) → P s → IsTidy id s
  pub kept : (m : Meanwhile) (s : Receiver) → IsPrompt m → P s → P (meanwhile m s)

absent-IsKnown : (id : ℕ) (s : Receiver) → IsAbsent id s → IsKnown id s
absent-IsKnown id s a = tidy-IsKnown id s (absent-IsTidy id s a)

meanwhile-IsAbsent :
    (id : ℕ) (m : Meanwhile) (s : Receiver)
    → IsPrompt m
    → IsAbsent id s
    → IsAbsent id (meanwhile m s)
unfolding meanwhile
meanwhile-IsAbsent id nothing s p a = a
meanwhile-IsAbsent id (failure notified) s p a = absurd p
meanwhile-IsAbsent id (failure_cleaned notified removed) s p a =
    cleaned-IsAbsent notified removed id s p (absent-IsKnown id s a)

meanwhile-IsTidy :
    (id : ℕ) (m : Meanwhile) (s : Receiver) → IsPrompt m → IsTidy id s → IsTidy id (meanwhile m s)
unfolding meanwhile
meanwhile-IsTidy id nothing s p t = t
meanwhile-IsTidy id (failure notified) s p t = absurd p
meanwhile-IsTidy id (failure_cleaned notified removed) s p t =
    absent-IsTidy id _ (cleaned-IsAbsent notified removed id s p (tidy-IsKnown id s t))

pub meanwhile-IsKnown :
    (id : ℕ) (m : Meanwhile) (s : Receiver) → IsPrompt m → IsKnown id s → IsKnown id (meanwhile m s)
unfolding meanwhile
meanwhile-IsKnown id nothing s p k = k
meanwhile-IsKnown id (failure notified) s p k = absurd p
meanwhile-IsKnown id (failure_cleaned notified removed) s p k =
    absent-IsKnown id _ (cleaned-IsAbsent notified removed id s p k)

pub IsAbsent-Told : (id : ℕ) → IsTold (IsAbsent id) id
IsAbsent-Told id = record { tidy = absent-IsTidy id; kept = meanwhile-IsAbsent id }

pub IsTidy-Told : (id : ℕ) → IsTold (IsTidy id) id
IsTidy-Told id = record { tidy = λ s t. t; kept = meanwhile-IsTidy id }
