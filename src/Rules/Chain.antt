-- ===== src/Rules/Chain.antt =====
-- sequentialDecreasing of internal/rules/detect.go: three linked transfers of falling amounts.
pub mod Links
use Prim.Native.String.{String}
use open_chain.Prelude.{
  ℕ, ◌-◌, Bool, true, false, not, ◌&&◌, Option, none, some, List, [], ◌∷◌, ◌++◌, Text, codes, same,
  ltb, leb, ◌==◌, if◌then◌else◌, is_empty,
}
use open_chain.Transfers.{Transfer}
use open_chain.Rules.Catalog.{Definition}
use open_chain.Rules.Fan.{Parameters, chain_parameters}
use open_chain.Rules.Leads.{Lead, asset_key, parsed_amount, transfer_ids, hours, lead}

-- b < a, where both amounts parse.
unfoldable pub falls : Option ℕ → Option ℕ → Bool
falls none b = false
falls (some a) none = false
falls (some a) (some b) = ltb b a

unfoldable pub parses : Option ℕ → Bool
parses none = false
parses (some a) = true

-- The tests of the outer loop.
unfoldable pub may_start : Transfer → Bool
unfolding parses
may_start t =
    parses (parsed_amount t)
    && (not (is_empty t.from_address)
        && (not (is_empty t.to_address) && not (same t.from_address t.to_address)))

-- `next` goes on from `last` within the window, of the first transfer's asset and for less.
unfoldable pub goes_on : ℕ → Transfer → Transfer → Transfer → Bool
unfolding falls
goes_on window first last next =
    same next.from_address last.to_address
    && (same (asset_key next) (asset_key first)
        && (leb last.block_timestamp next.block_timestamp
            && (leb (next.block_timestamp - last.block_timestamp) window
                && falls (parsed_amount last) (parsed_amount next))))

unfoldable pub is_second : ℕ → Transfer → Transfer → Bool
unfolding goes_on
is_second window first second =
    goes_on window first first second
    && (not (same second.to_address first.from_address)
        && not (same second.to_address second.from_address))

unfoldable pub is_third : ℕ → Transfer → Transfer → Transfer → Bool
unfolding goes_on
is_third window first second third =
    goes_on window first second third
    && (not (same third.to_address first.from_address)
        && (not (same third.to_address first.to_address)
            && not (same third.to_address third.from_address)))

module _ (window : ℕ) where
  -- The innermost loop: it ends at the first third transfer.
  unfoldable pub first_third : Transfer → Transfer → List Transfer → Option Transfer
  first_third first second [] = none
  first_third first second (t ∷ ts) =
      if is_third window first second t then some t else first_third first second ts

  -- The second loop: the chains of `first`, one for each second transfer.
  unfoldable pub chains_of :
      List Transfer → Transfer → List Transfer → List (Transfer × Transfer × Transfer)
  chains_of all first [] = []
  chains_of all first (s ∷ ss) =
      let rest = chains_of all first ss in
      if is_second window first s
      then elim (first_third first s all) [ none ↦ rest | some t ↦ (first, s, t) ∷ rest ]
      else rest

  unfoldable pub chains : List Transfer → List Transfer → List (Transfer × Transfer × Transfer)
  chains all [] = []
  chains all (f ∷ fs) =
      let rest = chains all fs in if may_start f then chains_of all f all ++ rest else rest

module _ (digest : Text → Text) (d : Definition) (window : ℕ) where
  unfoldable pub chain_leads : List (Transfer × Transfer × Transfer) → List Lead
  chain_leads [] = []
  chain_leads ((f, s, t) ∷ cs) =
      lead digest d f.from_address "Sequential decreasing-transfer pattern"
        (codes
            "Observed three sequential transfers of the same asset with decreasing raw amounts; each hop occurred within "
          ++ (hours window ++ codes " hour of the preceding hop."))
        (transfer_ids (f ∷ s ∷ t ∷ []))
      ∷ chain_leads cs

module _ (digest : Text → Text) (decode : String → Option Parameters) where
  -- sequentialDecreasing
  unfoldable pub sequential_decreasing : Definition → List Transfer → List Lead
  sequential_decreasing d ts = elim (chain_parameters decode d) [
    | none ↦ []
    | some (window, hops) ↦
        if hops == 3 then chain_leads digest d window (chains window ts ts) else []
  ]
