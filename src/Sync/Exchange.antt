-- ===== src/Sync/Exchange.antt =====
-- src/sync/handler.rs: the exchange of keys in `on_request`, and the approval in `on_command`.
use vitruvius.Base.{
  contains_key-eq_none, ◌≡◌, refl, ap, sym, ◌∙◌, is_some, true, false, some, none, [], ◌∷◌, ◌++◌,
  Bytes, Text, lookup, contains_key, nat_eq, list_eq, lookup-insert_self,
}
use vitruvius.Crypto.{Primitives}
use vitruvius.Network.{ack, key_exchange_accept}
use vitruvius.State.{tofu_context, derive_shared_key, key_for_peer, has_peer_key}
use vitruvius.Sync.{Env, Node, set_peer_key}
use vitruvius.Sync.Commands.{on_approve}
use vitruvius.Sync.Upload.{
  on_key_exchange_accept, our_secret, on_key_exchange_propose, on_key_exchange_accept,
}
use vitruvius.Sync.Offers.{broadcast_status}

-- What Diffie-Hellman promises: both sides compute one secret.
abbrev pub Agrees : Primitives → Type 0
Agrees P = (a b : Bytes) → P.diffie_hellman a (P.public_key b) ≡ P.diffie_hellman b (P.public_key a)

module _ (env : Env) (peer : Text) where
  -- A proposal from a peer that no key is known for, in use or stored, changes no key, neither in
  -- use nor stored: it is kept for the user's approval and acknowledged.
  pub on_key_exchange_propose-unknown :
      (their_public : Bytes) (n : Node)
      → contains_key peer n.state.peer_keys ≡ false
      → has_peer_key env.hex n.store peer ≡ false
      → ((on_key_exchange_propose env peer their_public n).state.peer_keys ≡ n.state.peer_keys)
        × ((on_key_exchange_propose env peer their_public n).store ≡ n.store)
        × (lookup peer (on_key_exchange_propose env peer their_public n).state.pending_approvals
            ≡ some their_public)
        × ((on_key_exchange_propose env peer their_public n).replies ≡ n.replies ++ ack ∷ [])
  unfolding on_key_exchange_propose
  on_key_exchange_propose-unknown their_public n no_key not_stored =
      rw (no_key, not_stored, on_key_exchange_propose)
        (refl, refl, lookup-insert_self peer their_public n.state.pending_approvals, refl)

-- The first contact: one side proposes, the user of the other side approves, and the first side
-- handles the answer.
module _ (here there : Env) (here_id there_id : Text) where
  on_key_exchange_accept-key :
      (secret their_public : Bytes) (n : Node)
      → lookup there_id n.state.pending_exchanges ≡ some secret
      → key_for_peer (on_key_exchange_accept here there_id their_public n).state there_id
        ≡ some (derive_shared_key here.primitives secret their_public)
  unfolding key_for_peer set_peer_key on_key_exchange_accept
  on_key_exchange_accept-key secret their_public n proposed =
      rw (proposed, on_key_exchange_accept)
        (lookup-insert_self there_id (derive_shared_key here.primitives secret their_public)
          n.state.peer_keys)

  -- The responder, with the proposal handled.
  abbrev pub asked : Bytes → Node → Node
  asked secret n = on_key_exchange_propose there here_id (there.primitives.public_key secret) n

  -- What the approval of a waiting proposal does.
  on_approve-key :
      (their_public : Bytes) (n : Node)
      → there.parses_peer_id here_id ≡ true
      → lookup here_id n.state.pending_approvals ≡ some their_public
      → (key_for_peer (on_approve there here_id n).state here_id
          ≡ some (derive_shared_key there.primitives (our_secret there here_id n) their_public))
        × ((on_approve there here_id n).requests
            ≡ n.requests
              ++ (
                here_id,
                key_exchange_accept (there.primitives.public_key (our_secret there here_id n)),
              )
                ∷ [])
  unfolding key_for_peer set_peer_key broadcast_status on_approve our_secret
  on_approve-key their_public n parses waits =
      rw (parses, waits, on_approve)
        (
          lookup-insert_self here_id
              (derive_shared_key there.primitives (our_secret there here_id n) their_public)
              n.state.peer_keys,
          refl,
        )

  -- Let both sides use the same primitives, whose Diffie-Hellman secrets agree, let the proposer
  -- hold the secret of an exchange with a peer, and let the peer have no key for the proposer, in
  -- use or stored. When the peer has handled the proposal, it has no key in use for the proposer
  -- yet. When its user has then approved the proposer, whose id parses, one request more is
  -- sent: to the proposer, with a public key. When the proposer has handled that request, each side
  -- has one and the same key for the other in use.
  pub exchange-Agrees :
      (secret : Bytes) (proposer responder : Node)
      → here.primitives ≡ there.primitives
      → Agrees there.primitives
      → there.parses_peer_id here_id ≡ true
      → lookup there_id proposer.state.pending_exchanges ≡ some secret
      → contains_key here_id responder.state.peer_keys ≡ false
      → has_peer_key there.hex responder.store here_id ≡ false
      → (key_for_peer (asked secret responder).state here_id ≡ none)
        × (answer : Bytes) × ((on_approve there here_id (asked secret responder)).requests
            ≡ (asked secret responder).requests ++ (here_id, key_exchange_accept answer) ∷ [])
        × (key_for_peer (on_key_exchange_accept here there_id answer proposer).state there_id
            ≡ key_for_peer (on_approve there here_id (asked secret responder)).state here_id)
        × (is_some
              (key_for_peer (on_key_exchange_accept here there_id answer proposer).state there_id)
            ≡ true)
  unfolding derive_shared_key key_for_peer
  exchange-Agrees secret proposer responder same agrees parses proposed no_key not_stored =
      let public = there.primitives.public_key secret in
      let ours = our_secret there here_id (asked secret responder) in
      let answer = there.primitives.public_key ours in
      let (keys, _, waits, _) =
        on_key_exchange_propose-unknown there here_id public responder no_key not_stored in
      let (key_there, answered) = on_approve-key public (asked secret responder) parses waits in
      let key_here = on_key_exchange_accept-key secret answer proposer proposed in
      let one_key : derive_shared_key here.primitives secret answer
          ≡ derive_shared_key there.primitives ours public =
        ap (λ (P : Primitives). derive_shared_key P secret answer) same
        ∙ ap (there.primitives.derive_key tofu_context) (agrees secret ours) in
      (
        ap (lookup here_id) keys ∙ contains_key-eq_none here_id responder.state.peer_keys no_key,
        answer,
        answered,
        key_here ∙ ap some one_key ∙ sym key_there,
        ap is_some key_here,
      )
