-- ===== src/Storage/Pinned.antt =====
-- The pinned key of a peer and its verified flag.
use go_send.Base.{◌≡◌, refl, false, Text, text_eq, text_eq_refl, Option-cases, inl, inr, arith}
use go_send.Base.Dict.{lookup, lookup-insert}
use go_send.Storage.Messages.{done}
use go_send.Storage.Peers.{
  Peer, PeerSettings, PeerTables, update_peer, clear_verified, update_peer_identity, get_peer,
  get_peer_settings,
}

-- A new key for a peer that is on record: the key and the fingerprint are read back, no other peer
-- changes, and the settings of the peer, if it has any, are no longer verified.
pub record IsRepinned (id key fingerprint : Text) (t t' : PeerTables) : Type 0 where
  pub peer : Peer
  pub pinned : get_peer id t' ≡ done peer
  pub key_is : peer.ed25519_public_key ≡ key
  pub fingerprint_is : peer.key_fingerprint ≡ fingerprint
  pub others : (j : Text) → text_eq id j ≡ false → get_peer j t' ≡ get_peer j t
  pub unverified : (s : PeerSettings) → get_peer_settings id t' ≡ done s → s.verified ≡ false
  pub other_settings :
      (j : Text) → text_eq id j ≡ false → get_peer_settings j t' ≡ get_peer_settings j t

-- A change of a peer's key that succeeds pins the new key and fingerprint, withdraws the peer's
-- verification, and leaves every other peer and its settings as they were.
pub update_peer_identity-IsRepinned :
    (id key fingerprint : Text) (t t' : PeerTables)
    → update_peer_identity id key fingerprint t ≡ done t'
    → IsRepinned id key fingerprint t t'
unfolding update_peer_identity update_peer clear_verified get_peer get_peer_settings
update_peer_identity-IsRepinned id key fingerprint t t' h =
    elim (Option-cases (lookup id t.peers)) [
      | inl e ↦ absurd (ground (arith, h, e))
      | inr (p, e) ↦
          let p' = record p { ed25519_public_key = key; key_fingerprint = fingerprint } in
          elim (Option-cases (lookup id t.settings)) [
            | inl n ↦ record {
              peer = p';
              pinned = ground (arith, h, e, n, lookup-insert id id p' t.peers, text_eq_refl id);
              key_is = refl;
              fingerprint_is = refl;
              others = λ j d. ground (arith, h, e, n, d, lookup-insert id j p' t.peers);
              unverified = λ u k. ground (arith, h, e, n, k);
              other_settings = λ j d. ground (arith, h, e, n, d);
            }
            | inr (s, n) ↦
                let s' = record s { verified = false } in
                record {
                  peer = p';
                  pinned = ground (arith, h, e, n, lookup-insert id id p' t.peers, text_eq_refl id);
                  key_is = refl;
                  fingerprint_is = refl;
                  others = λ j d. ground (arith, h, e, n, d, lookup-insert id j p' t.peers);
                  unverified = λ u k.
                      ground
                        (arith, h, e, n, k, lookup-insert id id s' t.settings, text_eq_refl id);
                  other_settings =
                      λ j d. ground (arith, h, e, n, d, lookup-insert id j s' t.settings);
                }
          ]
    ]
