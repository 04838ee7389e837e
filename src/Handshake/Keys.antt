-- ===== src/Handshake/Keys.antt =====
-- network/handshake.go: evaluatePeerKey, trust on first use.
use go_send.Base.{Bool, not, ◌||◌, [], Option, none, some, Text, is_empty, text_eq, if◌then◌else◌}
use go_send.Base.Dict.{lookup}
use go_send.Handshake.Options.{HandshakeOptions}

pub data KeyError : Type 0 where
  key_changed decision_failed : KeyError

-- `known[deviceID]`, "" for a missing key.
abbrev pub known_or_empty : Option Text → Text
known_or_empty none = []
known_or_empty (some key) = key

-- The key on record: the lookup's, else the map's.
unfoldable pub existing_key : HandshakeOptions → Text → Text
existing_key o device_id =
    let found : Text = elim o.known_peer_key_lookup [ none ↦ [] | some f ↦ f device_id ] in
    if is_empty found then known_or_empty (lookup device_id o.known_peer_keys) else found

-- evaluatePeerKey: none is success.
unfoldable pub evaluate_peer_key : HandshakeOptions → Text → Text → Option KeyError
evaluate_peer_key o device_id received =
    let existing = existing_key o device_id in
    if is_empty existing || text_eq existing received then none else elim o.on_key_change_decision [
      | none ↦ some key_changed
      | some decide ↦ elim (decide device_id existing received) [
        | none ↦ some decision_failed
        | some trust ↦ if not trust then some key_changed else none
      ]
    ]

-- The decision function, if there is one, trusts the new key.
abbrev pub trusts : Option (Text → Text → Text → Option Bool) → Text → Text → Text → Option Bool
trusts none device_id existing received = none
trusts (some decide) device_id existing received = decide device_id existing received
