-- ===== src/Sync/Proposing.antt =====
-- src/sync/handler.rs: who proposes the exchange of keys when a connection is established.
use vitruvius.Base.{
  ◌≡◌, ◌≢◌, refl, ap₂, eq_of_==, inl, inr, false, not, none, [], ◌∷◌, Text, lookup, contains_key,
  nat_eq, list_eq, Bool-cases, arith, nat_beq_iff, ◌==◌,
}
use vitruvius.State.{get_peer_key}
use vitruvius.Storage.Listing.{text_lt}
use vitruvius.Sync.{Env, Node}

-- Of two texts that differ exactly one is below the other.
pub text_lt-not : (a b : Text) → a ≢ b → text_lt a b ≡ not (text_lt b a)
unfolding text_lt
text_lt-not [] [] differ = absurd (differ refl)
text_lt-not [] (y ∷ ys) differ = refl
text_lt-not (x ∷ xs) [] differ = refl
text_lt-not (x ∷ xs) (y ∷ ys) differ = elim (Bool-cases (x == y)) [
  | inl same ↦
      let at : x ≡ y = eq_of_== x y same in
      let tails = text_lt-not xs ys (λ e. differ (ap₂ (λ z zs. z ∷ zs) at e)) in
      ground (arith, tails, at)
  | inr other ↦ ground (arith, nat_beq_iff x y)
]

-- Nothing is known of the peer: no key, in use or stored, and no exchange; and the operator has
-- given no key for all.
abbrev pub Unacquainted : Env → Text → Node → Type 0
Unacquainted env peer n =
    (contains_key peer n.state.peer_keys ≡ false)
    × (get_peer_key env.hex n.store peer ≡ none)
    × (n.state.shared_key_from_cli ≡ false)
    × (lookup peer n.state.pending_exchanges ≡ none)
