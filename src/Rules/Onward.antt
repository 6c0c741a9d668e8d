-- ===== src/Rules/Onward.antt =====
-- rapidOnward and briefIntermediary of internal/rules/detect.go.
use Prim.Native.String.{String}
use open_chain.Prelude.{
  ℕ, ◌-◌, Bool, not, ◌&&◌, ◌||◌, Option, none, some, List, [], ◌∷◌, ◌++◌, Text, codes, same, leb,
  ◌==◌, if◌then◌else◌, is_empty,
}
use open_chain.Transfers.{Transfer}
use open_chain.Rules.Catalog.{Definition}
use open_chain.Rules.Fan.{Parameters, rapid_parameters}
use open_chain.Rules.Leads.{
  Lead, Groups, asset_key, same_amount, sort_transfers, transfer_ids, add_to, hours, lead,
}

abbrev pub nul : Text
nul = 0 ∷ []

-- strings.SplitN(key, "\x00", 2)[0]
unfoldable pub before_nul : Text → Text
before_nul [] = []
before_nul (c ∷ s) = if c == 0 then [] else c ∷ before_nul s

-- The first loop of rapidOnward: a transfer stands under both of its addresses.
unfoldable pub middle_groups : Groups → List Transfer → Groups
middle_groups gs [] = gs
middle_groups gs (t ∷ ts) =
    let key : Text → Text = λ a. a ++ (nul ++ asset_key t) in
    let out = if is_empty t.from_address then gs else add_to (key t.from_address) t gs in
    middle_groups (if is_empty t.to_address then out else add_to (key t.to_address) t out) ts

module _ (window : ℕ) (middle : Text) where
  -- The test of the inner loop: `outbound` leaves the middle in time and does not go back.
  unfoldable pub follows : Transfer → Transfer → Bool
  follows inbound outbound =
      same outbound.from_address middle
      && (not (same outbound.to_address inbound.from_address)
          && (leb inbound.block_timestamp outbound.block_timestamp
              && leb (outbound.block_timestamp - inbound.block_timestamp) window))

  -- The first outbound transfer that follows.
  unfoldable pub first_follower : Transfer → List Transfer → Option Transfer
  first_follower inbound [] = none
  first_follower inbound (o ∷ os) = if follows inbound o then some o else first_follower inbound os

  -- The first pair, over the inbound transfers in order.
  unfoldable pub first_pair : List Transfer → List Transfer → Option (Transfer × Transfer)
  first_pair group [] = none
  first_pair group (i ∷ is) =
      let rest = first_pair group is in
      if same i.to_address middle
      then elim (first_follower i group) [ none ↦ rest | some o ↦ some (i, o) ]
      else rest

module _ (digest : Text → Text) (d : Definition) (window : ℕ) where
  unfoldable pub rapid_group : Text → List Transfer → List Lead
  rapid_group middle group =
      let sorted = sort_transfers group in
      elim (first_pair window middle sorted sorted) [
        | none ↦ []
        | some (i, o) ↦
            lead digest d middle "Rapid onward-transfer pattern"
              (codes "Observed an inbound transfer followed by a transfer of the same asset within "
                ++ (hours window ++ codes " hour."))
              (transfer_ids (i ∷ o ∷ []))
            ∷ []
      ]

  unfoldable pub rapid_leads : Groups → List Lead
  rapid_leads [] = []
  rapid_leads ((key, group) ∷ gs) = rapid_group (before_nul key) group ++ rapid_leads gs

module _ (digest : Text → Text) (decode : String → Option Parameters) where
  -- rapidOnward
  unfoldable pub rapid_onward : Definition → List Transfer → List Lead
  rapid_onward d ts = elim (rapid_parameters decode d) [
    | none ↦ []
    | some window ↦ rapid_leads digest d window (middle_groups [] ts)
  ]

-- The first loop of briefIntermediary: a transfer to oneself stands there once.
unfoldable pub address_groups : Groups → List Transfer → Groups
address_groups gs [] = gs
address_groups gs (t ∷ ts) =
    let out = if is_empty t.from_address then gs else add_to t.from_address t gs in
    address_groups
      (if is_empty t.to_address || same t.to_address t.from_address
        then out
        else add_to t.to_address t out)
      ts

-- The two transfers of an address are an amount that came in and went on.
unfoldable pub passes_through : ℕ → Text → Transfer → Transfer → Bool
passes_through window address inbound outbound =
    same inbound.to_address address
    && (same outbound.from_address address
        && (not (same outbound.to_address inbound.from_address)
            && (same (asset_key inbound) (asset_key outbound)
                && (leb inbound.block_timestamp outbound.block_timestamp
                    && (leb (outbound.block_timestamp - inbound.block_timestamp) window
                        && same_amount inbound outbound)))))

module _ (digest : Text → Text) (d : Definition) (window : ℕ) where
  unfoldable pub brief_pair : Text → List Transfer → List Lead
  brief_pair address (i ∷ o ∷ []) =
      if passes_through window address i o
      then lead digest d address "Briefly observed intermediary pattern"
          (codes
              "Within the selected observations, this address received and forwarded the same raw asset amount to a different counterparty within "
            ++ (hours window ++ codes " hour."))
          (transfer_ids (i ∷ o ∷ []))
        ∷ []
      else []
  brief_pair address _ = []

  unfoldable pub brief_leads : Groups → List Lead
  unfolding brief_pair
  brief_leads [] = []
  brief_leads ((address, group) ∷ gs) = brief_pair address (sort_transfers group) ++ brief_leads gs

module _ (digest : Text → Text) (decode : String → Option Parameters) where
  -- briefIntermediary
  unfoldable pub brief_intermediary : Definition → List Transfer → List Lead
  brief_intermediary d ts = elim (rapid_parameters decode d) [
    | none ↦ []
    | some window ↦ brief_leads digest d window (address_groups [] ts)
  ]
