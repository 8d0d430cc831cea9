-- ===== src/Cli/Receiver/Outcomes.antt =====
-- cli/transfer.ts: how `receiveFiles` ends.
use p2p_transfer.Base.{
  ℕ, ◌≡◌, refl, sym, ◌∙◌, subst, ap, Bool, true, false, Option, none, some, List, [], Text, nat,
  length, Map, lookup, Every, nat_eq,
}
use p2p_transfer.Shared.Messages.{FileManifest, FileManifestEntry}
use p2p_transfer.Cli.Receiver.{FileState, Receiver}
use p2p_transfer.Cli.Receiver.Triples.{IsFinished, IsWeak}
use p2p_transfer.Cli.Receiver.Handlers.{matches_accepted, expect_files}
use p2p_transfer.Shared.Transfer.{TransferManifest}
use p2p_transfer.Cli.Receiver.Changes.{some_eq}
use p2p_transfer.Cli.Receiver.Events.{Receiving, IsReachable}
use p2p_transfer.Shared.Transfer.Matching.{transfer_manifest_matches_accepted-same}
use p2p_transfer.Cli.Receiver.Reachable.{receiver-IsSound}

not_none : {A : Type 0} (o : Option A) → (o ≡ none → ⊥) → (a : A) × (o ≡ some a)
not_none none h = elim (h refl) [ ]
not_none (some a) h = (a, refl)

truth : true ≡ false → ⊥
truth h = cc

module _ (is_format : ℕ → Bool) (sha256 : List ℕ → Text) (accepted : Option FileManifest) where
  -- A file of the manifest that came whole.
  pub record IsDelivered (files : Map ℕ FileState) (id : ℕ) (entry : FileManifestEntry)
      : Type 0 where
    pub state : FileState
    pub stored : lookup id files ≡ some state
    pub done : state.done ≡ true
    pub sized : entry.size ≡ nat (length state.hashed)
    pub digest : state.expected_sha256 ≡ some (sha256 state.hashed)

  pub record IsDeliveredTransfer (s : Receiver) : Type 0 where
    pub offered : TransferManifest
    pub set : s.manifest ≡ some offered
    pub agreed : (user : FileManifest) → accepted ≡ some user → offered.files ≡ user.files
    pub delivered : Every (IsDelivered s.files) (expect_files offered.files [])

  agreed_files :
      (m : TransferManifest) (o : Option FileManifest)
      → matches_accepted is_format sha256 o m ≡ true
      → (user : FileManifest) → o ≡ some user
      → m.files ≡ user.files
  unfolding matches_accepted
  agreed_files m none h user e = elim (none-some e) [ ]
    where
      none-some : {A : Type 0} {a : A} → none ≡ some a → ⊥
      none-some h = cc
  agreed_files m (some offered) h user e =
      (transfer_manifest_matches_accepted-same is_format offered m h).0
      ∙ ap (λ u. u.files) (some_eq e)

  IsDelivered-of :
      (s : Receiver)
      → IsWeak is_format sha256 accepted s
      → IsFinished is_format sha256 accepted s
      → Every (IsDelivered s.files) s.expected_files
  IsDelivered-of s w fin id entry listed =
      let r = w.all_seen fin.seen id entry listed in
      let e = w.expected id r.state r.stored in
      let v = w.files id r.state r.stored in
      let done = fin.done id r.state r.stored in
      let whole = v.verified done in
      record {
        state = r.state;
        stored = r.stored;
        done = done;
        sized =
            ap (λ x. x.size) (some_eq (sym listed ∙ e.listed))
            ∙ e.sized
            ∙ ap nat (sym whole.whole ∙ sym v.measured);
        digest = whole.digest;
      }

  -- In every state that any events reach and in which the transfer is completed, a manifest has come,
  -- its files are the accepted ones if the user has accepted a manifest, and every file of the
  -- manifest is done, with as many bytes as its entry says and the digest that the sender gave.
  pub completed-IsDeliveredTransfer :
      {r : Receiving}
      → IsReachable is_format sha256 accepted r
      → r.receiver.completed ≡ true
      → IsDeliveredTransfer r.receiver
  completed-IsDeliveredTransfer {r} reachable completed =
      let v = receiver-IsSound is_format sha256 accepted reachable in
      let fin = v.weak.finished completed in
      let (m, set) =
        not_none r.receiver.manifest (λ unset. truth (sym fin.seen ∙ (v.weak.unset unset).1)) in
      let a = v.agreed fin.unfailed m set in
      record {
        offered = m;
        set = set;
        agreed = agreed_files m accepted a.matches;
        delivered =
            subst (Every (IsDelivered r.receiver.files)) a.expects
              (IsDelivered-of r.receiver v.weak fin);
      }
