-- ===== src/Messaging/Node.antt =====
-- The part of PeerManager that text messages use: its identity, the message and seen-ID tables, and
-- a log of what it reports, newest last.
use go_send.Base.{ℕ, Bool, List, [], ◌∷◌, ◌++◌, Bytes, Text}
use go_send.Storage.Messages.{Message}
use go_send.Storage.Seen.{SeenIds}

-- What reportError, logSecurityEvent, OnMessageReceived and OnQueueOverflow are called with.
pub data Event : Type 0 where
  reported : Event
  replay_rejected : Text → Event
  signature_failed : Text → Event
  received : Message → Event
  overflow : Text → ℕ → Event

-- `has_peer` is the peers table as the foreign keys of the messages table see it.
pub record Node : Type 0 where
  pub device_id : Text
  pub private_key : Bytes
  pub has_peer : Text → Bool
  pub messages : List Message
  pub seen : SeenIds
  pub log : List Event

abbrev pub note : Event → Node → Node
note e node = record node { log = node.log ++ (e ∷ []) }
