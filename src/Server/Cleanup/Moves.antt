-- ===== src/Server/Cleanup/Moves.antt =====
-- What sending and cleaning up in server/index.ts can do to the state: single changes, of which
-- every cleanup is a sequence.
pub mod Sockets
pub mod Ends
use p2p_transfer.Base.{
  ℕ, ◌≡◌, refl, Bool, true, false, Option, none, some, List, [], ◌∷◌, ◌++◌, Map, Text, Number,
  lookup, insert, remove, nat_eq, text_eq, if◌then◌else◌,
}
use p2p_transfer.Shared.Messages.{
  ClientMessage, ServerMessage, registered, peer_joined, relayed, peer_left, ice_config, error,
}
use p2p_transfer.Server.State.{
  Call, sent, refused, closed_with, terminated, pinged, Peer, WaitingCode, Server, with_peer, maybe,
}
use p2p_transfer.Server.Admission.{can_restore_pre_pair_code}

-- The clients' messages among the calls on a socket.
abbrev pub relayed_message : ServerMessage → List ClientMessage
relayed_message (registered code n) = []
relayed_message (peer_joined sid) = []
relayed_message (relayed m) = m ∷ []
relayed_message (peer_left sid reason) = []
relayed_message ice_config = []
relayed_message (error code) = []

abbrev pub relayed_call : Call → List ClientMessage
relayed_call (sent m) = relayed_message m
relayed_call (refused m) = []
relayed_call (closed_with n) = []
relayed_call terminated = []
relayed_call pinged = []

abbrev pub relayed_calls : List Call → List ClientMessage
relayed_calls [] = []
relayed_calls (c ∷ cs) = relayed_call c ++ relayed_calls cs

-- A change of a peer that hands no client's message to it.
abbrev pub IsQuiet : (Peer → Peer) → Type 0
IsQuiet f = (p : Peer) → relayed_calls (f p).calls ≡ relayed_calls p.calls

pub data Move : Server → Server → Type 0 where
  on_peer : {s : Server} (q : ℕ) (f : Peer → Peer) → IsQuiet f → Move s (with_peer s q f)
  on_connections : {s : Server} (m : Map ℕ ℕ) → Move s (record s { active_connections = m })
  on_registry : {s : Server} (ps : List ℕ) → Move s (record s { peers_by_socket = ps })
  on_limits :
      {s : Server} (m n : Map ℕ (List Number))
      → Move s (record s { rate_limits = m; turn_issue_rate_limits = n })
  drop_session : {s : Server} (sid : ℕ) → Move s (record s { sessions = remove sid s.sessions })
  drop_code : {s : Server} (code : Text) → Move s (record s { codes = remove code s.codes })
  put_code :
      {s : Server} (code : Text) (entry : WaitingCode)
      → entry.code ≡ code
      → can_restore_pre_pair_code entry.remaining_pre_pair_attempts ≡ true
      → Move s (record s { codes = insert code entry s.codes })
  lower_code :
      {s : Server} (code : Text) (entry : WaitingCode) (n : ℕ)
      → lookup code s.codes ≡ some entry
      → can_restore_pre_pair_code n ≡ true
      → Move s (record s {
        codes = insert code (record entry { remaining_pre_pair_attempts = n }) s.codes;
      })
  expire_code :
      {s : Server} (code : Text) (entry : WaitingCode) (n : ℕ)
      → lookup code s.codes ≡ some entry
      → Move s (record s {
        codes =
            remove entry.code
              (insert code (record entry { remaining_pre_pair_attempts = n }) s.codes);
      })

pub data Moves (s : Server) : Server → Type 0 where
  stay : Moves s s
  then_move : {t u : Server} → Moves s t → Move t u → Moves s u

pub Moves-trans : {s t u : Server} → Moves s t → Moves t u → Moves s u
Moves-trans a stay = a
Moves-trans a (then_move b m) = then_move (Moves-trans a b) m

pub one : {s t : Server} → Move s t → Moves s t
one m = then_move stay m

pub if-Moves :
    {s x y : Server} (b : Bool)
    → (b ≡ true → Moves s x)
    → (b ≡ false → Moves s y)
    → Moves s (if b then x else y)
if-Moves true h k = h refl
if-Moves false h k = k refl

pub maybe-Moves {ℓ} :
    {A : Type ℓ} {s d : Server} {f : A → Server} (o : Option A)
    → (o ≡ none → Moves s d)
    → ((a : A) → o ≡ some a → Moves s (f a))
    → Moves s (maybe o d f)
maybe-Moves none h k = h refl
maybe-Moves (some a) h k = k a refl
