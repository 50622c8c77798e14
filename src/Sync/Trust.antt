-- ===== src/Sync/Trust.antt =====
-- src/sync/handler.rs: the trusted keys under the commands of the user.
use vitruvius.Base.{
  ◌≡◌, refl, ap, ◌∙◌, true, false, some, Bytes, Text, lookup, remove, lookup-remove, contains_key,
  contains_key-remove, nat_eq, list_eq, ==_refl,
}
use vitruvius.State.{Hex, TofuStore, get_peer_key, has_peer_key, revoke_peer_key}
use vitruvius.Sync.{Env, Node}
use vitruvius.Sync.Upload.{on_key_exchange_propose}
use vitruvius.Sync.Commands.{on_revoke_key}
use vitruvius.Sync.Exchange.{on_key_exchange_propose-unknown}

has_peer_key-remove :
    (hex : Hex) (store : TofuStore) (peer : Text)
    → has_peer_key hex (remove peer store) peer ≡ false
unfolding has_peer_key get_peer_key
has_peer_key-remove hex store peer = rw (lookup-remove peer peer store, ==_refl peer) refl

module _ (env : Env) (peer : Text) where
  revoked :
      (n : Node)
      → env.parses_peer_id peer ≡ true
      → env.store_writable ≡ true
      → ((on_revoke_key env peer n).state.peer_keys ≡ remove peer n.state.peer_keys)
        × ((on_revoke_key env peer n).store ≡ remove peer n.store)
  unfolding on_revoke_key revoke_peer_key
  revoked n parses writable = rw (parses, writable, on_revoke_key, revoke_peer_key) (refl, refl)

  -- If the id of a peer parses and the key store can be written: once the user has revoked the key
  -- of the peer, a proposal from it changes no key, in use or stored, and waits for the user's
  -- approval.
  pub on_key_exchange_propose-on_revoke_key :
      (their_public : Bytes) (n : Node)
      → env.parses_peer_id peer ≡ true
      → env.store_writable ≡ true
      → ((on_key_exchange_propose env peer their_public (on_revoke_key env peer n)).state.peer_keys
          ≡ remove peer n.state.peer_keys)
        × ((on_key_exchange_propose env peer their_public (on_revoke_key env peer n)).store
            ≡ remove peer n.store)
        × (lookup peer
              (on_key_exchange_propose env peer their_public
                (on_revoke_key env peer n)).state.pending_approvals
            ≡ some their_public)
  on_key_exchange_propose-on_revoke_key their_public n parses writable =
      let (keys, store) = revoked n parses writable in
      let (same_keys, same_store, waits, _) =
        on_key_exchange_propose-unknown env peer their_public (on_revoke_key env peer n)
          (ap (contains_key peer) keys ∙ contains_key-remove peer n.state.peer_keys)
          (ap (λ s. has_peer_key env.hex s peer) store
            ∙ has_peer_key-remove env.hex n.store peer) in
      (same_keys ∙ keys, same_store ∙ store, waits)
