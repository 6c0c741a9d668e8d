-- ===== src/Bridge/Resolve/Candidates.antt =====
-- What the transitions of a standard bridge rest on.
use mathlib.Core.Path.{subst}
use mathlib.Core.List.{Mem}
use open_chain.Prelude.{
  ◌≡◌, inl, inr, refl, true, not, ◌||◌, Option, none, some, List, [], ◌∷◌, ◌++◌, Text, is_empty,
  All, All-append, All-map, All-Mem, arith, Bool-cases, Option-cases,
}
use open_chain.Prelude.Sets.{contains}
use open_chain.Prelude.Dict.{get}
use open_chain.Prelude.Sort.{sort, All-sort}
use open_chain.Transfers.{TransferItem}
use open_chain.Bridge.Events.{same_address}
use open_chain.Bridge.Messages.{Endpoint}
use open_chain.Bridge.Destination.{EvmClient}
use open_chain.Bridge.Transition.{Transition}
use open_chain.Bridge.Resolve.{
  StandardBridge, resolve_candidate, candidates, each_candidate, by_id, with_clients, resolve,
}
use open_chain.Bridge.Resolve.Backed.{some_injective, Backed, resolve_candidate-Backed}

module _ (keccak sha256 : Text → Text) (a : StandardBridge) where
  module _ (near far : EvmClient) (source destination : Endpoint) where
    -- A transition of one of the transfers that go to the bridge.
    abbrev pub Sourced : List TransferItem → Transition → Type 0
    Sourced ts t =
        (c : TransferItem) × Mem c ts
        × (same_address c.to source.bridge ≡ true)
        × Backed keccak sha256 a near far source destination c t

    each_candidate-Sourced :
        (ts cs : List TransferItem) (hs : List Text) (r : List Transition × List Text)
        → All (λ c. Mem c ts × (same_address c.to source.bridge ≡ true)) cs
        → each_candidate keccak sha256 a source destination near far cs hs ≡ some r
        → All (Sourced ts) r.0
    unfolding each_candidate
    each_candidate-Sourced ts [] hs r h e =
        subst (λ (r : List Transition × List Text). All (Sourced ts) r.0) (some_injective e) tt
    each_candidate-Sourced ts (c ∷ cs) hs r ((m, to), h) e =
        elim (Option-cases (resolve_candidate keccak sha256 a source destination c near far hs)) [
          | inl n ↦ absurd (ground (arith, e, n))
          | inr ((us, hs'), one) ↦
              elim (Option-cases
                (each_candidate keccak sha256 a source destination near far cs hs')) [
                  | inl n ↦ absurd (ground (arith, e, one, n))
                  | inr ((vs, hs''), more) ↦
                      let p : (us ++ vs, hs'') ≡ r = ground (arith, e, one, more) in
                      subst (λ (r : List Transition × List Text). All (Sourced ts) r.0) p
                        (All-append (Sourced ts) us vs
                          (All-map (Backed keccak sha256 a near far source destination c)
                            (Sourced ts) (λ t b. (c, m, to, b)) us
                            (resolve_candidate-Backed keccak sha256 a near far source destination c
                              hs (us, hs') one))
                          (each_candidate-Sourced ts cs hs' (vs, hs'') h more))
                ]
        ]

  candidates-All :
      (source : Endpoint) (us ts : List TransferItem) (seen : List Text)
      → All (λ t. Mem t us) ts
      → All
          (λ c. Mem c us × (same_address c.to source.bridge ≡ true))
          (candidates keccak sha256 a source seen ts)
  unfolding candidates
  candidates-All source us [] seen h = tt
  candidates-All source us (t ∷ ts) seen (m, h) =
      elim (Bool-cases
        (not (same_address t.to source.bridge) || is_empty t.hash || contains t.hash seen)) [
          | inl e ↦ rw (e, candidates) (candidates-All source us ts seen h)
          | inr e ↦
              rw (e, candidates)
                ((m, ground (arith, e)), candidates-All source us ts (t.hash ∷ seen) h)
        ]

  -- A transition of a network's transfers that rests on them, in the network's pair of endpoints.
  abbrev pub Rests : Text → List TransferItem → Transition → Type 0
  Rests network ts t =
      (source destination : Endpoint) × (near far : EvmClient) × (get network a.endpoints
        ≡ some (source, destination))
      × (a.clients source.network ≡ some near)
      × (a.clients destination.network ≡ some far)
      × Sourced near far source destination ts t

  with_clients-Rests :
      (network : Text) (source destination : Endpoint) (near far : Option EvmClient)
      (ts : List TransferItem) (hs : List Text) (r : List Transition × List Text)
      → get network a.endpoints ≡ some (source, destination)
      → a.clients source.network ≡ near
      → a.clients destination.network ≡ far
      → with_clients keccak sha256 a source destination near far ts hs ≡ some r
      → All (Rests network ts) r.0
  unfolding with_clients
  with_clients-Rests network source destination none far ts hs r pair n f e =
      subst (λ (r : List Transition × List Text). All (Rests network ts) r.0) (some_injective e) tt
  with_clients-Rests network source destination (some near) none ts hs r pair n f e =
      subst (λ (r : List Transition × List Text). All (Rests network ts) r.0) (some_injective e) tt
  with_clients-Rests network source destination (some near) (some far) ts hs r pair n f e =
      elim (Option-cases (
        each_candidate keccak sha256 a source destination near far
          (candidates keccak sha256 a source [] ts) hs)) [
            | inl k ↦ absurd (ground (arith, e, k))
            | inr ((us, hs'), k) ↦
                let p : (sort (by_id keccak sha256 a) us, hs') ≡ r = ground (arith, e, k) in
                subst (λ (r : List Transition × List Text). All (Rests network ts) r.0) p
                  (All-sort (by_id keccak sha256 a) (Rests network ts) us (
                    All-map (Sourced near far source destination ts) (Rests network ts)
                      (λ t b. (source, destination, near, far, pair, n, f, b)) us
                      (each_candidate-Sourced near far source destination ts
                        (candidates keccak sha256 a source [] ts) hs (us, hs')
                        (candidates-All source ts ts [] (All-Mem ts)) k)))
          ]

  -- Every transition that Resolve returns names the hash of one of the given transfers to the source's
  -- bridge, and where it is finalized, the receipt of that transfer's transaction has an initiation with a
  -- canonical route and the message that carries it, the destination has a relay of that message's id
  -- with the matching finalization, and the blocks of both lie as deep as they have to.
  pub resolve-Rests :
      (network : Text) (ts : List TransferItem) (hs : List Text) (r : List Transition × List Text)
      → resolve keccak sha256 a network ts hs ≡ some r
      → All (Rests network ts) r.0
  unfolding resolve
  resolve-Rests network ts hs r e = elim (Option-cases (get network a.endpoints)) [
    | inl n ↦
        subst (λ (r : List Transition × List Text). All (Rests network ts) r.0)
          (some_injective (rw (n, resolve) at e)) tt
    | inr ((source, destination), pair) ↦
        with_clients-Rests network source destination _ _ ts hs r pair refl refl
          (rw (pair, resolve) at e)
  ]
