-- ===== src/Shared/Messages.antt =====
-- shared/messages.ts: the messages between a client and the signaling server. Identifiers made by
-- nanoid are numbers, texts are lists of UTF-16 code units, and a payload that the server only
-- hands on is such a text.
use p2p_transfer.Base.{ℕ, List, Option, Number, Text}

pub data Role : Type 0 where
  sender receiver : Role

pub data SignalKind : Type 0 where
  offer answer candidate : SignalKind

pub record FileManifestEntry : Type 0 where
  pub id : Option Number
  pub name : Text
  pub size : Number
  pub mime : Option Text

pub record FileManifest : Type 0 where
  pub files : List FileManifestEntry
  pub file_count : Number
  pub total_bytes : Number

-- The reason of a "bye" as far as the server tells reasons apart.
pub data ByeReason : Type 0 where
  prepair_retry complete cancelled other_reason : ByeReason

pub data ClientMessage : Type 0 where
  register : (code : Text) (protocol_version : ℕ) → ClientMessage
  connect : (code : Text) (protocol_version : ℕ) → ClientMessage
  pake : (sid : ℕ) (share : Text) → ClientMessage
  confirm : (sid : ℕ) (tag : Text) → ClientMessage
  pair_request : (sid : ℕ) (manifest : FileManifest) (sealed_manifest : Text) → ClientMessage
  pair_accept : (sid : ℕ) (auth : Text) → ClientMessage
  pair_reject : (sid : ℕ) (auth : Text) → ClientMessage
  signal : (sid : ℕ) (kind : SignalKind) (sealed_signal : Text) → ClientMessage
  bye : (sid : Option ℕ) (reason : Option ByeReason) → ClientMessage

pub data ErrorCode : Type 0 where
  code_taken code_not_found expired rate_limited bad_protocol bad_message : ErrorCode
  session_not_found peer_unavailable transfer_rejected : ErrorCode

-- What `peerLeftReason` of server/index.ts lets through.
pub data LeftReason : Type 0 where
  complete cancelled bye closed : LeftReason

-- `relayed` is a client's message with a session, handed on as it came.
pub data ServerMessage : Type 0 where
  registered : (code : Text) (expires_in_sec : ℕ) → ServerMessage
  peer_joined : (sid : ℕ) → ServerMessage
  relayed : ClientMessage → ServerMessage
  peer_left : (sid : ℕ) (reason : LeftReason) → ServerMessage
  ice_config : ServerMessage
  error : ErrorCode → ServerMessage
