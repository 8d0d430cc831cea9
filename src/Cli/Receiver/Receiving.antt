-- ===== src/Cli/Receiver/Receiving.antt =====
-- cli/transfer.ts: every chunk of a file keeps the invariant of `receiveFiles`.
use p2p_transfer.Base.{
  ℕ, ◌+◌, ◌≤◌, ◌≡◌, refl, sym, ◌∙◌, subst, Bool, true, false, not, Option, some, List, ◌++◌, Text,
  ◌==◌, length, lookup, nat_eq, arith,
}
use p2p_transfer.Shared.Messages.{FileManifest}
use p2p_transfer.Cli.Receiver.{
  FileState, Receiver, await, update_file, throw_if_receive_stopped, file_of, change,
}
use p2p_transfer.Cli.Receiver.Triples.{Runs, Runs-found_in, IsSoundFile, IsSound}
use p2p_transfer.Cli.Receiver.{require, ◌>>=◌, ◌>>◌}
use p2p_transfer.Cli.Receiver.Tasks.{Answers}
use p2p_transfer.Cli.Receiver.Triples.{Runs-bind, Runs-require}
use p2p_transfer.Cli.Receiver.Primitives.{Ends, Goes, Kept, GoesAt, GoesAt-Kept}
use p2p_transfer.Cli.Receiver.Tasks.{maybe_finalize}
use p2p_transfer.Cli.Receiver.Primitives.{
  Runs-from, Runs-change, Runs-await, Runs-stop, Runs-file_of, Goes-Kept,
}
use p2p_transfer.Cli.Receiver.Changes.{Runs-update, some_eq}
use p2p_transfer.Cli.Receiver.Tasks.{maybe_resolve_done}
use p2p_transfer.Base.{leb}
use p2p_transfer.Base.{length-append}
use p2p_transfer.Shared.Chunks.{decode_chunk}
use p2p_transfer.Cli.Receiver.{Incoming}
use p2p_transfer.Cli.Receiver.Handlers.{bulk_task, takes_chunks, to_bytes, decoded}
use p2p_transfer.Cli.Receiver.Publishing.{maybe_finalize-Runs}
use p2p_transfer.Cli.Receiver.Completing.{maybe_resolve_done-Runs}
use p2p_transfer.Cli.Receiver.Handling.{IsUndone, IsUndone-Stable, Has-of, stops}

module _ (is_format : ℕ → Bool) (sha256 : List ℕ → Text) (accepted : Option FileManifest) where
  abbrev Stops : Receiver → Type 0
  Stops = Ends is_format sha256 accepted

  abbrev Going : Receiver → Type 0
  Going = Goes is_format sha256 accepted

  abbrev Has : (FileState → Type 0) → ℕ → Receiver → Type 0
  Has = GoesAt is_format sha256 accepted

  abbrev Settled : Receiver → Type 0
  Settled = IsSound is_format sha256 accepted

  kept : Kept is_format sha256 accepted Going
  kept = Goes-Kept is_format sha256 accepted

  -- A file that is not done and has room for a chunk.
  record HasRoom (payload : List ℕ) (st : FileState) : Type 0 where
    pub undone : st.done ≡ false
    pub room : st.bytes + length payload ≤ st.size

  added-SoundFile :
      (payload : List ℕ) (st : FileState)
      → HasRoom payload st
      → IsSoundFile is_format sha256 accepted st
      → IsSoundFile is_format sha256 accepted (record st {
        expected_seq = st.expected_seq + 1;
        hashed = st.hashed ++ payload;
        bytes = st.bytes + length payload;
      })
  added-SoundFile payload st h v = record {
    measured = omega (arith, length-append st.hashed payload, v.measured);
    bounded = h.room;
    verified = λ d. ground (arith, d, h.undone);
    held = v.held;
  }

  transferred-Going :
      (n : ℕ) (s : Receiver)
      → Going s
      → Going (record s { transferred_bytes = s.transferred_bytes + n })
  transferred-Going n s g =
      let w = g.sound.weak in
      record {
        sound = record {
          weak = record {
            files = w.files;
            expected = w.expected;
            unset = w.unset;
            all_seen = w.all_seen;
            distinct = w.distinct;
            finished = λ completed. ground (arith, g.running, completed);
          };
          agreed = λ unfailed m is.
              let a = g.sound.agreed unfailed m is in
              record { matches = a.matches; expects = a.expects };
          watched = g.sound.watched;
        };
        running = g.running;
      }

  room_of :
      (payload : List ℕ) (id : ℕ) (now : FileState) (s : Receiver)
      → Has IsUndone id s
      → lookup id s.files ≡ some now
      → leb (now.bytes + length payload) now.size ≡ true
      → Has (HasRoom payload) id s
  room_of payload id now s h found room = record {
    goes = h.goes;
    file = record {
      state = now;
      stored = found;
      holds = record {
        undone =
            subst (λ st. st.done ≡ false) (some_eq (sym h.file.stored ∙ found)) h.file.holds.undone;
        room = ground (arith, room);
      };
    };
  }

  -- From the payload of a chunk on.
  payload-Runs :
      (env : Answers) (id : ℕ) (payload : List ℕ)
      → Runs
          (Has IsUndone id)
          (λ u s. Settled s)
          Stops
          (do
            throw_if_receive_stopped
            now ← file_of id
            require (not (length payload == 0))
            require (leb (now.bytes + length payload) now.size)
            update_file id (λ st. record st {
              expected_seq = st.expected_seq + 1;
              hashed = st.hashed ++ payload;
              bytes = st.bytes + length payload;
            })
            change (λ s. record s { transferred_bytes = s.transferred_bytes + length payload })
            await env.written
            maybe_finalize sha256 env id
            maybe_resolve_done env)
  payload-Runs env id payload =
      let held = GoesAt-Kept is_format sha256 accepted {id = id} IsUndone-Stable in
      Runs-bind (Runs-stop is_format sha256 accepted held) (λ u.
        Runs-from (λ s (h, e). h)
          (Runs-bind (Runs-file_of is_format sha256 accepted id held) (λ now.
            Runs-bind
              (Runs-require (not (length payload == 0))
                (λ s (h, e). stops is_format sha256 accepted s h.goes))
              (λ v.
                Runs-bind
                  (Runs-require (leb (now.bytes + length payload) now.size)
                    (λ s ((h, e), k). stops is_format sha256 accepted s h.goes))
                  (λ w.
                    Runs-from (λ s (((h, e), k), l). room_of payload id now s h e l)
                      (Runs-bind
                        (Runs-update is_format sha256 accepted {ψ = λ st. Unit {0}} id
                          (λ st. record st {
                            expected_seq = st.expected_seq + 1;
                            hashed = st.hashed ++ payload;
                            bytes = st.bytes + length payload;
                          })
                          (λ st h v. added-SoundFile payload st h v) (λ st h. tt) (λ st. refl))
                        (λ x.
                          Runs-bind {Q = λ y s. Going s}
                            (Runs-change
                              (λ s. record s {
                                transferred_bytes = s.transferred_bytes + length payload;
                              })
                              (λ s h. transferred-Going (length payload) s h.goes))
                            (λ y.
                              Runs-bind (Runs-await is_format sha256 accepted env.written kept)
                                (λ z.
                                  Runs-bind (maybe_finalize-Runs is_format sha256 accepted env id)
                                    (λ k.
                                      maybe_resolve_done-Runs is_format sha256 accepted
                                        env))))))))))

  pub bulk_task-Runs :
      (env : Answers) (received : Incoming)
      → Runs Going (λ u s. Settled s) Stops (bulk_task is_format sha256 accepted env received)
  unfolding bulk_task
  bulk_task-Runs env received =
      Runs-bind (Runs-found_in (to_bytes received) (stops is_format sha256 accepted)) (λ bytes.
        Runs-bind
          (Runs-found_in (decoded (decode_chunk bytes))
            (λ s (g, e). stops is_format sha256 accepted s g))
          (λ frame.
            Runs-from (λ s ((g, e), h). g)
              (Runs-bind (Runs-file_of is_format sha256 accepted frame.file_id kept) (λ st.
                Runs-bind
                  (Runs-require (takes_chunks st)
                    (λ s (g, found). stops is_format sha256 accepted s g))
                  (λ u.
                    Runs-bind
                      (Runs-require (frame.chunk_seq == st.expected_seq)
                        (λ s ((g, found), e). stops is_format sha256 accepted s g))
                      (λ v.
                        Runs-from
                          (λ s (((g, found), e), h).
                            Has-of is_format sha256 accepted IsUndone frame.file_id st s g found
                              (record { undone = ground (arith, e) }))
                          (Runs-bind
                            (Runs-await is_format sha256 accepted env.payload (
                              GoesAt-Kept is_format sha256 accepted {id = frame.file_id}
                                IsUndone-Stable))
                            (λ payload. payload-Runs env frame.file_id payload))))))))
