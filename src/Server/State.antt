-- ===== src/Server/State.antt =====
-- The state of server/index.ts. Peers are objects that codes and sessions refer to: they stand in
-- a store, by their identifier. Of a socket the model keeps the calls that the program made on it;
-- what the library ws answers is a parameter, a function of the socket and of those calls.
use p2p_transfer.Base.{
  ℕ, Bool, true, false, Option, none, some, List, ◌∷◌, Map, Text, Number, ◌==◌, if◌then◌else◌,
}
use p2p_transfer.Shared.Messages.{Role, ServerMessage}
use p2p_transfer.Server.Policy.{Relay}

pub data ReadyState : Type 0 where
  connecting open_state closing closed_state : ReadyState

-- What the program did to a socket: a message handed over, a send that threw, a close with its
-- code, a close that threw and the terminate after it, a terminate, a ping, a ping that threw.
pub data Call : Type 0 where
  sent refused : ServerMessage → Call
  closed_with : ℕ → Call
  terminated pinged : Call

-- The environment of one event: the clock, the answers of ws, the TURN setting of the
-- configuration, the class of format characters of the regular expression engine, and its
-- `toLowerCase`.
pub record Env : Type 0 where
  pub now : ℕ
  pub ready_state : ℕ → List Call → ReadyState
  pub buffered_amount : ℕ → List Call → ℕ
  pub send_throws : ℕ → List Call → ServerMessage → Bool
  pub close_throws : ℕ → List Call → Bool
  pub ping_throws : ℕ → List Call → Bool
  pub has_turn_rest_config : Bool
  pub is_format : ℕ → Bool
  pub to_lower_case : Text → Text

pub record Peer : Type 0 where
  pub id : ℕ
  pub ip : ℕ
  pub role : Option Role
  pub sid : Option ℕ
  pub code : Option Text
  pub bad_messages : ℕ
  pub message_times : List Number
  pub idle_timer : Bool
  pub close_timer : Bool
  pub awaiting_heartbeat_pong : Bool
  pub connection_released : Bool
  pub calls : List Call

pub record WaitingCode : Type 0 where
  pub code : Text
  pub receiver : ℕ
  pub expires_at : ℕ
  pub remaining_pre_pair_attempts : ℕ

pub record Session : Type 0 where
  pub relay : Relay
  pub open relay use *
  pub code : Text
  pub code_expires_at : ℕ
  pub expires_at : ℕ
  pub remaining_pre_pair_attempts : ℕ

pub record Server : Type 0 where
  pub codes : Map Text WaitingCode
  pub sessions : Map ℕ Session
  pub rate_limits : Map ℕ (List Number)
  pub turn_issue_rate_limits : Map ℕ (List Number)
  pub active_connections : Map ℕ ℕ
  pub peers_by_socket : List ℕ
  pub peers : ℕ → Peer

-- An assignment to fields of a peer.
unfoldable pub with_peer : Server → ℕ → (Peer → Peer) → Server
with_peer s q f = record s { peers = λ p. if q == p then f (s.peers p) else s.peers p }

-- An option taken apart.
abbrev pub maybe {ℓ κ} : {A : Type ℓ} {B : Type κ} → Option A → B → (A → B) → B
maybe none b f = b
maybe (some a) b f = f a

abbrev pub is_open : ReadyState → Bool
is_open ReadyState.open_state = true
is_open _ = false

abbrev pub is_closed : ReadyState → Bool
is_closed ReadyState.closed_state = true
is_closed _ = false

abbrev pub push_call : Call → Peer → Peer
push_call c p = record p { calls = c ∷ p.calls }
