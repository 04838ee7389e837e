-- ===== src/Examples/Queues.antt =====
-- Tables, queues and received messages at concrete inputs.
use go_send.Base.{
  ℕ, ◌≡◌, ◌⊎◌, refl, true, false, [], ◌∷◌, ◌++◌, none, some, Text, codes, text_eq, ◌==◌,
  if◌then◌else◌, arith,
}
use go_send.Base.Int.{pos}
use go_send.Base.Dict.{Dict, lookup, insert, keep_keys}
use go_send.Protocol.{EncryptedMessage}
use go_send.Storage.Messages.{pending, Message}
use go_send.Storage.Seen.{insert_seen_id, prune_old_entries}
use go_send.Storage.Pending.{queue}
use go_send.Messaging.Node.{overflow, Node}
use go_send.Messaging.Limits.{enforce_queue_limits, enforced}
use go_send.Messaging.Trimmed.{IsTrimmed}
use go_send.Messaging.Bounded.{IsTable, pruned_at, enforce_queue_limits-IsTrimmed}
use go_send.Messaging.Session.{Session}
use go_send.Messaging.Receive.{receive}
use go_send.Messaging.Genuine.{IsGenuine, receive-IsGenuine}
use go_send.Examples.Toy.{toy, toy_codec, toy_wire, zeros}
use go_send.Examples.Links.{link}

-- A pending message to alice, sent at this time.
abbrev pub queued : Text → ℕ → Message
queued id at = record {
  message_id = id;
  from_device_id = codes "bob";
  to_device_id = codes "alice";
  content = codes "hi";
  content_type = codes "text";
  timestamp_sent = pos at;
  timestamp_received = none;
  is_read = false;
  delivery_status = pending;
  signature = [];
}

abbrev pub bob_node : Node
bob_node = record {
  device_id = codes "bob";
  private_key = zeros 64;
  has_peer = λ id. true;
  messages = queued (codes "m2") 700_000_002 ∷ queued (codes "m1") 700_000_001 ∷ [];
  seen = (codes "m0", 5) ∷ [];
  log = [];
}

bob_node-IsTable : IsTable bob_node.messages
unfolding text_eq
bob_node-IsTable = record { unique = ((refl, tt), (tt, tt)); named = (refl, (refl, tt)) }

enforce_queue_limits-IsTrimmed_example :
    (node' : Node) × (k : ℕ) × (enforce_queue_limits 700_000_003 (codes "alice") bob_node
      ≡ enforced node')
    × (let rows = pruned_at 700_000_003 bob_node.messages in
        IsTrimmed (codes "alice") (queue (codes "alice") rows) rows node'.messages k)
    × (node'.log ≡ (if k == 0 then [] else [] ++ (overflow (codes "alice") k ∷ [])))
enforce_queue_limits-IsTrimmed_example =
    enforce_queue_limits-IsTrimmed 700_000_003 (codes "alice") bob_node refl (omega arith)
      bob_node-IsTable

abbrev with_m1 : Dict ℕ
with_m1 = (codes "m0", 5) ∷ (codes "m1", 7) ∷ []

abbrev with_m2 : Dict ℕ
with_m2 = (codes "m0", 5) ∷ (codes "m1", 7) ∷ (codes "m2", 9) ∷ []

m1_inserted : insert_seen_id 9 (codes "m1") 7 bob_node.seen ≡ some with_m1
unfolding insert_seen_id insert text_eq
m1_inserted = refl

m2_inserted : insert_seen_id 9 (codes "m2") 0 with_m1 ≡ some with_m2
unfolding insert_seen_id insert text_eq
m2_inserted = refl

m0_received : lookup (codes "m0") with_m2 ≡ some 5
unfolding lookup text_eq
m0_received = refl

m0_pruned : prune_old_entries 6 with_m2 ≡ some ((codes "m1", 7) ∷ (codes "m2", 9) ∷ [])
unfolding prune_old_entries keep_keys lookup text_eq
m0_pruned = refl

-- From alice to bob, with number 5, one second ago.
abbrev greeting : EncryptedMessage
greeting = record {
  message_id = codes "m5";
  from_device_id = codes "alice";
  to_device_id = codes "bob";
  content_type = codes "text";
  sequence = 5;
  encrypted_content = zeros 32 ++ codes "hello";
  iv = zeros 12;
  timestamp = pos 999_000;
  signature = zeros 64;
}

abbrev session : Session
session = record { conn = link; node = bob_node }

receive-IsGenuine_example :
    let s' = receive toy toy_codec toy_wire 1_000_000_000_000 greeting session in
    (s'.node.messages ≡ bob_node.messages)
    ⊎ IsGenuine toy toy_codec toy_wire 1_000_000_000_000 greeting session s'
receive-IsGenuine_example =
    receive-IsGenuine toy toy_codec toy_wire 1_000_000_000_000 greeting session
