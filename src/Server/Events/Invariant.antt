-- ===== src/Server/Events/Invariant.antt =====
-- The well-formed states of the signaling server, and the single changes that keep them.
use p2p_transfer.Base.{
  ℕ, ◌≤◌, ◌<◌, ◌≡◌, refl, ◌≢◌, Bool, true, false, Option, none, some, Map, Text, arith,
  if◌then◌else◌, lookup, insert, remove, size, nat_eq, text_eq, lookup-insert, lookup-remove,
  size-remove-le, same_text_iff, Every, Every-insert, Every-remove,
}
use p2p_transfer.Server.Policy.Phases.{IsOrdered}
use p2p_transfer.Server.Admission.{can_restore_pre_pair_code, receiver_max_prepair_attempts}
use p2p_transfer.Server.State.{WaitingCode, Session, Server, with_peer, maybe}
use p2p_transfer.Server.Cleanup.Moves.{
  Move, on_peer, on_connections, on_registry, on_limits, drop_session, drop_code, put_code,
  lower_code, expire_code, Moves, stay, then_move,
}
use p2p_transfer.Server.Pairing.{signaling_max_sessions}

-- A waiting code stands under its own text, and has an attempt left.
pub record IsWaiting (code : Text) (e : WaitingCode) : Type 0 where
  pub keyed : e.code ≡ code
  pub attempts : can_restore_pre_pair_code e.remaining_pre_pair_attempts ≡ true

-- A session stands under its own identifier, its two peers are different, its phases are in order,
-- and the attempt that it took is gone.
pub record IsPaired (sid : ℕ) (x : Session) : Type 0 where
  pub keyed : x.sid ≡ sid
  pub different : x.sender ≢ x.receiver
  pub ordered : IsOrdered x.relay
  pub spent : x.remaining_pre_pair_attempts < receiver_max_prepair_attempts

pub record IsSound (s : Server) : Type 0 where
  pub waiting : Every IsWaiting s.codes
  pub paired : Every IsPaired s.sessions
  pub within : size s.sessions ≤ signaling_max_sessions

-- An entry that is put at its own text and removed at that text is gone.
expired-Every :
    (code : Text) (old : WaitingCode) (n : ℕ) (m : Map Text WaitingCode)
    → Every IsWaiting m
    → lookup code m ≡ some old
    → Every IsWaiting
        (remove old.code (insert code (record old { remaining_pre_pair_attempts = n }) m))
expired-Every code old n m h found k w e =
    let same : old.code ≡ code = (h code old found).keyed in
    let entry : WaitingCode = record old { remaining_pre_pair_attempts = n } in
    h k w (
      ground (
        arith,
        same,
        lookup-remove old.code k (insert code entry m),
        lookup-insert code k entry m,
        same_text_iff code k,
        same_text_iff old.code k,
      ))

pub Move-IsSound : {s t : Server} → Move s t → IsSound s → IsSound t
unfolding with_peer
Move-IsSound (on_peer q f quiet) v = record {
  waiting = v.waiting;
  paired = v.paired;
  within = v.within;
}
Move-IsSound (on_connections m) v = record {
  waiting = v.waiting;
  paired = v.paired;
  within = v.within;
}
Move-IsSound (on_registry ps) v = record {
  waiting = v.waiting;
  paired = v.paired;
  within = v.within;
}
Move-IsSound (on_limits m n) v = record {
  waiting = v.waiting;
  paired = v.paired;
  within = v.within;
}
Move-IsSound {s} (drop_session sid) v = record {
  waiting = v.waiting;
  paired = Every-remove IsPaired sid s.sessions v.paired;
  within = omega (arith, v.within, size-remove-le sid s.sessions);
}
Move-IsSound {s} (drop_code code) v = record {
  waiting = Every-remove IsWaiting code s.codes v.waiting;
  paired = v.paired;
  within = v.within;
}
Move-IsSound {s} (put_code code entry same can) v = record {
  waiting =
      Every-insert IsWaiting code entry s.codes (record { keyed = same; attempts = can }) v.waiting;
  paired = v.paired;
  within = v.within;
}
Move-IsSound {s} (lower_code code entry n found can) v = record {
  waiting =
      Every-insert IsWaiting code (record entry { remaining_pre_pair_attempts = n }) s.codes
        (record { keyed = (v.waiting code entry found).keyed; attempts = can }) v.waiting;
  paired = v.paired;
  within = v.within;
}
Move-IsSound {s} (expire_code code entry n found) v = record {
  waiting = expired-Every code entry n s.codes v.waiting found;
  paired = v.paired;
  within = v.within;
}

-- Whatever the sends and the cleanups of an event do, the state stays well-formed.
pub Moves-IsSound : {s t : Server} → Moves s t → IsSound s → IsSound t
Moves-IsSound stay v = v
Moves-IsSound (then_move ms m) v = Move-IsSound m (Moves-IsSound ms v)

pub if-IsSound :
    {x y : Server} (b : Bool)
    → (b ≡ true → IsSound x)
    → (b ≡ false → IsSound y)
    → IsSound (if b then x else y)
if-IsSound true h k = h refl
if-IsSound false h k = k refl

pub maybe-IsSound {ℓ} :
    {A : Type ℓ} {d : Server} {f : A → Server} (o : Option A)
    → (o ≡ none → IsSound d)
    → ((a : A) → o ≡ some a → IsSound (f a))
    → IsSound (maybe o d f)
maybe-IsSound none h k = h refl
maybe-IsSound (some a) h k = k a refl
