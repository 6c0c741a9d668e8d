-- ===== src/Rules/Evaluate/Follows.antt =====
-- What holds of the ids of all transfers holds of those that rapidOnward, briefIntermediary and
-- sequentialDecreasing of internal/rules/detect.go cite.
use Prim.Native.String.{String}
use open_chain.Prelude.{
  ℕ, ◌≡◌, Option, some, List, [], ◌∷◌, Text, same, All, All-append, arith, Bool-cases, Option-cases,
  inl, inr, is_empty, ◌==◌,
}
use mathlib.Core.Path.{subst}
use open_chain.Transfers.{Transfer}
use open_chain.Rules.Catalog.{Definition}
use open_chain.Rules.Leads.{Lead, Groups, sort_transfers, transfer_ids}
use open_chain.Rules.Fan.{Parameters, rapid_parameters, chain_parameters}
use open_chain.Rules.Onward.{
  before_nul, middle_groups, follows, first_follower, first_pair, rapid_group, rapid_leads,
  rapid_onward, address_groups, passes_through, brief_pair, brief_leads, brief_intermediary,
}
use open_chain.Rules.Chain.{
  may_start, is_second, is_third, first_third, chains_of, chains, chain_leads,
  sequential_decreasing,
}
use open_chain.Rules.Evaluate.Cites.{
  From, InGroups, Cites, sort_transfers-From, transfer_ids-From, add_to-InGroups, if-InGroups,
  lead-Cites,
}

module _ {κ} (P : Text → Type κ) where
  middle_groups-InGroups :
      (ts : List Transfer) (gs : Groups)
      → InGroups P gs
      → From P ts
      → InGroups P (middle_groups gs ts)
  unfolding middle_groups
  middle_groups-InGroups [] gs hg h = hg
  middle_groups-InGroups (t ∷ ts) gs hg (h, hs) =
      let out = if-InGroups P (is_empty t.from_address) gs _ hg (add_to-InGroups P _ t gs h hg) in
      middle_groups-InGroups ts _
        (if-InGroups P (is_empty t.to_address) _ _ out (add_to-InGroups P _ t _ h out)) hs

  address_groups-InGroups :
      (ts : List Transfer) (gs : Groups)
      → InGroups P gs
      → From P ts
      → InGroups P (address_groups gs ts)
  unfolding address_groups
  address_groups-InGroups [] gs hg h = hg
  address_groups-InGroups (t ∷ ts) gs hg (h, hs) =
      let out = if-InGroups P (is_empty t.from_address) gs _ hg (add_to-InGroups P _ t gs h hg) in
      address_groups-InGroups ts _ (if-InGroups P _ _ _ out (add_to-InGroups P _ t _ h out)) hs

  module _ (window : ℕ) (middle : Text) where
    first_follower-From :
        (i : Transfer) (os : List Transfer) (o : Transfer)
        → first_follower window middle i os ≡ some o
        → From P os
        → P o.id
    unfolding first_follower
    first_follower-From i [] o e h = cc
    first_follower-From i (x ∷ os) o e (h, hs) = elim (Bool-cases (follows window middle i x)) [
      | inl f ↦
          let same_one : x ≡ o = ground (arith, e, f) in subst (λ (t : Transfer). P t.id) same_one h
      | inr f ↦ first_follower-From i os o (ground (arith, e, f)) hs
    ]

    first_pair-From :
        (is group : List Transfer) (i o : Transfer)
        → first_pair window middle group is ≡ some (i, o)
        → From P is
        → From P group
        → P i.id × P o.id
    unfolding first_pair
    first_pair-From [] group i o e hi hg = cc
    first_pair-From (x ∷ is) group i o e (h, hi) hg = elim (Bool-cases (same x.to_address middle)) [
      | inr f ↦ first_pair-From is group i o (ground (arith, e, f)) hi hg
      | inl f ↦ elim (Option-cases (first_follower window middle x group)) [
        | inl none_left ↦ first_pair-From is group i o (ground (arith, e, f, none_left)) hi hg
        | inr (y, found) ↦
            let first_one : x ≡ i = ground (arith, e, f, found) in
            let second_one : y ≡ o = ground (arith, e, f, found) in
            (
              subst (λ (t : Transfer). P t.id) first_one h,
              subst (λ (t : Transfer). P t.id) second_one (first_follower-From x group y found hg),
            )
      ]
    ]

  abbrev InChain : Transfer × Transfer × Transfer → Type κ
  InChain c = P c.0.id × P c.1.id × P c.2.id

  module _ (window : ℕ) where
    first_third-From :
        (f s : Transfer) (ts : List Transfer) (t : Transfer)
        → first_third window f s ts ≡ some t
        → From P ts
        → P t.id
    unfolding first_third
    first_third-From f s [] t e h = cc
    first_third-From f s (x ∷ ts) t e (h, hs) = elim (Bool-cases (is_third window f s x)) [
      | inl g ↦
          let same_one : x ≡ t = ground (arith, e, g) in subst (λ (t : Transfer). P t.id) same_one h
      | inr g ↦ first_third-From f s ts t (ground (arith, e, g)) hs
    ]

    chains_of-From :
        (ss all : List Transfer) (f : Transfer)
        → From P all
        → P f.id
        → From P ss
        → All InChain (chains_of window all f ss)
    unfolding chains_of
    chains_of-From [] all f ha hf h = tt
    chains_of-From (s ∷ ss) all f ha hf (h, hs) =
        let rest = chains_of-From ss all f ha hf hs in
        elim (Bool-cases (is_second window f s)) [
          | inr e ↦ rw e rest
          | inl e ↦ elim (Option-cases (first_third window f s all)) [
            | inl g ↦ rw (e, g) rest
            | inr (t, g) ↦ rw (e, g) ((hf, h, first_third-From f s all t g ha), rest)
          ]
        ]

    chains-From :
        (fs all : List Transfer) → From P all → From P fs → All InChain (chains window all fs)
    unfolding chains
    chains-From [] all ha h = tt
    chains-From (f ∷ fs) all ha (h, hs) =
        let rest = chains-From fs all ha hs in
        elim (Bool-cases (may_start f)) [
          | inr e ↦ rw e rest
          | inl e ↦ rw e (
              All-append InChain (chains_of window all f all) (chains window all fs)
                (chains_of-From all all f ha h ha) rest)
        ]

  module _ (digest : Text → Text) (d : Definition) (window : ℕ) where
    rapid_group-Cites :
        (middle : Text) (group : List Transfer)
        → From P group
        → Cites P (rapid_group digest d window middle group)
    unfolding rapid_group
    rapid_group-Cites middle group h =
        let sorted = sort_transfers-From P group h in
        elim (Option-cases
          (first_pair window middle (sort_transfers group) (sort_transfers group))) [
            | inl e ↦ rw (e, rapid_group) tt
            | inr ((i, o), e) ↦
                let (hi, ho) = first_pair-From window middle _ _ i o e sorted sorted in
                rw (e, rapid_group)
                  (
                    lead-Cites P digest d _ _ _ (transfer_ids (i ∷ o ∷ []))
                        (transfer_ids-From P (i ∷ o ∷ []) (hi, (ho, tt))),
                    tt,
                  )
          ]

    rapid_leads-Cites : (gs : Groups) → InGroups P gs → Cites P (rapid_leads digest d window gs)
    unfolding rapid_leads
    rapid_leads-Cites [] h = tt
    rapid_leads-Cites ((k, group) ∷ gs) (h, hs) =
        All-append (λ (l : Lead). All P l.transfer_ids)
          (rapid_group digest d window (before_nul k) group) (rapid_leads digest d window gs)
          (rapid_group-Cites (before_nul k) group h) (rapid_leads-Cites gs hs)

    brief_pair-Cites :
        (address : Text) (group : List Transfer)
        → From P group
        → Cites P (brief_pair digest d window address group)
    unfolding brief_pair
    brief_pair-Cites address [] h = tt
    brief_pair-Cites address (i ∷ []) h = tt
    brief_pair-Cites address (i ∷ o ∷ []) h =
        elim (Bool-cases (passes_through window address i o)) [
          | inr e ↦ rw e tt
          | inl e ↦ rw e (
            lead-Cites P digest d _ _ _ (transfer_ids (i ∷ o ∷ []))
                (transfer_ids-From P (i ∷ o ∷ []) h),
            tt,
          )
        ]
    brief_pair-Cites address (i ∷ o ∷ x ∷ xs) h = tt

    brief_leads-Cites : (gs : Groups) → InGroups P gs → Cites P (brief_leads digest d window gs)
    unfolding brief_leads
    brief_leads-Cites [] h = tt
    brief_leads-Cites ((k, group) ∷ gs) (h, hs) =
        All-append (λ (l : Lead). All P l.transfer_ids)
          (brief_pair digest d window k (sort_transfers group)) (brief_leads digest d window gs)
          (brief_pair-Cites k (sort_transfers group) (sort_transfers-From P group h))
          (brief_leads-Cites gs hs)

    chain_leads-Cites :
        (cs : List (Transfer × Transfer × Transfer))
        → All InChain cs
        → Cites P (chain_leads digest d window cs)
    unfolding chain_leads
    chain_leads-Cites [] h = tt
    chain_leads-Cites ((f, s, t) ∷ cs) ((hf, hs, ht), h) = (
      lead-Cites P digest d _ _ _ (transfer_ids (f ∷ s ∷ t ∷ []))
          (transfer_ids-From P (f ∷ s ∷ t ∷ []) (hf, (hs, (ht, tt)))),
      chain_leads-Cites cs h,
    )

  module _ (digest : Text → Text) (decode : String → Option Parameters) (d : Definition) where
    pub rapid_onward-Cites :
        (ts : List Transfer) → From P ts → Cites P (rapid_onward digest decode d ts)
    unfolding rapid_onward
    rapid_onward-Cites ts h = elim (Option-cases (rapid_parameters decode d)) [
      | inl e ↦ rw (e, rapid_onward) tt
      | inr (w, e) ↦
          rw (e, rapid_onward)
            (rapid_leads-Cites digest d w (middle_groups [] ts) (middle_groups-InGroups ts [] tt h))
    ]

    pub brief_intermediary-Cites :
        (ts : List Transfer) → From P ts → Cites P (brief_intermediary digest decode d ts)
    unfolding brief_intermediary
    brief_intermediary-Cites ts h = elim (Option-cases (rapid_parameters decode d)) [
      | inl e ↦ rw (e, brief_intermediary) tt
      | inr (w, e) ↦
          rw (e, brief_intermediary)
            (brief_leads-Cites digest d w (address_groups [] ts)
              (address_groups-InGroups ts [] tt h))
    ]

    pub sequential_decreasing-Cites :
        (ts : List Transfer) → From P ts → Cites P (sequential_decreasing digest decode d ts)
    unfolding sequential_decreasing
    sequential_decreasing-Cites ts h = elim (Option-cases (chain_parameters decode d)) [
      | inl e ↦ rw (e, sequential_decreasing) tt
      | inr ((w, hops), e) ↦ elim (Bool-cases (hops == 3)) [
        | inr g ↦ rw (e, g, sequential_decreasing) tt
        | inl g ↦
            rw (e, g, sequential_decreasing)
              (chain_leads-Cites digest d w (chains w ts ts) (chains-From w ts ts h h))
      ]
    ]
