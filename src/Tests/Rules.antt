-- ===== src/Tests/Rules.antt =====
-- The rules at small pages of transfers: internal/rules/detect.go.
use Prim.Native.String.{String}
use mathlib.Core.List.{head?}
use open_chain.Prelude.{
  is_empty, ℕ, ◌≤◌, ◌<◌, ◌≡◌, refl, Bool, true, false, Option, none, some, List, [], ◌∷◌, ◌++◌,
  codes, same, arith, All,
}
use open_chain.Prelude.Int.{pos}
use open_chain.Transfers.{Asset, Transfer, set_string}
use open_chain.Prelude.Sets.{contains}
use open_chain.Rules.Window.{first_distinct_window, window_from, see, counterpart_of}
use open_chain.Rules.Window.Decides.{
  InTime, distinct, first_distinct_window_sound, first_distinct_window_complete,
}
use open_chain.Prelude.Decimal.{read_digits}
use open_chain.Rules.Leads.{Lead, asset_key, parsed_amount}
use open_chain.Rules.Chain.{chains, may_start, chains_of, is_second, first_third, is_third}
use open_chain.Rules.Chain.Links.{IsChain, chains-IsChain}
use open_chain.Rules.Fan.{Parameters}
use open_chain.Rules.Evaluate.{evaluate}
use open_chain.Rules.Evaluate.Backed.{BackedId, evaluate_cites_backed}

abbrev coin : Asset
coin = record { kind = codes "native"; contract_address = []; symbol = codes "ETH"; decimals = 18 }

-- A transfer of 5 base units to the same address.
abbrev paid : ℕ → String → Bool → ℕ → Transfer
paid n payer unsettled time = record {
  id = n ∷ [];
  network = codes "ethereum";
  transaction_hash = n ∷ [];
  event_id = [];
  transfer_kind = codes "native";
  from_address = codes payer;
  to_address = codes "x";
  asset = coin;
  amount_base_units = codes "5";
  block_number = pos 7;
  block_hash = [];
  block_timestamp = time;
  provisional = unsettled;
  source = codes "chain";
  retrieved_at = 9;
}

abbrev first_payer : Transfer
first_payer = paid 1 "a" false 10

abbrev second_payer : Transfer
second_payer = paid 2 "b" false 20

abbrev third_payer : Transfer
third_payer = paid 3 "c" false 30

abbrev payers : List Transfer
payers = first_payer ∷ second_payer ∷ third_payer ∷ []

-- The first payer pays twice before the second one does.
abbrev repeated : List Transfer
repeated = first_payer ∷ paid 4 "a" false 12 ∷ second_payer ∷ []

two_found : first_distinct_window true 2 15 (repeated ++ third_payer ∷ []) ≡ some (repeated, 2)
unfolding first_distinct_window window_from see contains counterpart_of same
two_found = refl

none_found : first_distinct_window true 3 15 payers ≡ none
unfolding first_distinct_window window_from see contains counterpart_of same
none_found = refl

first_distinct_window_sound_example :
    (before after : List Transfer) × (x : Transfer) × (repeated ++ third_payer ∷ []
      ≡ before ++ (repeated ++ after))
    × (head? repeated ≡ some x)
    × InTime 15 x.block_timestamp repeated
    × (2 ≡ distinct true repeated)
    × (2 ≤ 2)
first_distinct_window_sound_example =
    first_distinct_window_sound true 2 15 (repeated ++ third_payer ∷ []) repeated 2 two_found

first_distinct_window_complete_example : distinct true (second_payer ∷ third_payer ∷ []) < 3
first_distinct_window_complete_example =
    first_distinct_window_complete true 3 15 (first_payer ∷ []) (third_payer ∷ []) [] second_payer
      none_found (omega arith)

-- The catalog's parameters, for any text.
abbrev parameters_of : String → Option Parameters
parameters_of s =
    some (record { window_seconds = 86_400; min_distinct_counterparties = 3; min_hops = 3 })

abbrev settled_twice : List Transfer
settled_twice = first_payer ∷ paid 2 "b" true 20 ∷ third_payer ∷ []

evaluate_cites_backed_example :
    All
      (λ (l : Lead). All (BackedId settled_twice) l.transfer_ids)
      (evaluate (λ t. t) parameters_of (λ ls. []) (codes "ethereum") 40 settled_twice).0
evaluate_cites_backed_example =
    evaluate_cites_backed (λ t. t) parameters_of (λ ls. []) (codes "ethereum") 40 settled_twice

abbrev hop : ℕ → String → String → String → ℕ → Transfer
hop n payer payee amount time = record (paid n payer false time) {
  to_address = codes payee;
  amount_base_units = codes amount;
}

abbrev hops : List Transfer
hops = hop 1 "a" "b" "90" 10 ∷ hop 2 "b" "c" "80" 20 ∷ hop 3 "c" "d" "70" 30 ∷ []

one_chain :
    chains 15 hops hops ≡ (hop 1 "a" "b" "90" 10, hop 2 "b" "c" "80" 20, hop 3 "c" "d" "70" 30) ∷ []
unfolding chains may_start parsed_amount set_string read_digits is_empty same chains_of is_second
    asset_key first_third is_third
one_chain = refl

chains-IsChain_example : All (IsChain 15) (chains 15 hops hops)
chains-IsChain_example = chains-IsChain 15 hops hops
