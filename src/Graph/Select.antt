-- ===== src/Graph/Select.antt =====
-- The choice of counterparties: selectCounterpartyTransfersWithKnown, selectCounterpartiesByAsset and
-- knownCounterparties of internal/tracing/graph.go. `has_labels` says whether the label registry answers
-- with labels.
pub mod Chosen
use open_chain.Prelude.{
  ℕ, suc, ◌+◌, Bool, true, false, not, ◌&&◌, ◌||◌, Option, none, some, List, [], ◌∷◌, ◌++◌, map,
  Text, same, before, ltb, ◌==◌, if◌then◌else◌, is_empty, equal_fold, length, take, keep,
}
use open_chain.Prelude.Int.{ℤ, pos, ltb_ℤ, add_ℤ}
use open_chain.Prelude.Sets.{contains}
use open_chain.Prelude.Dict.{keys, values, get, get_or, assign}
use open_chain.Prelude.Sort.{sort}
use open_chain.Transfers.{TransferItem, set_string}
use open_chain.Graph.Controls.{graph_controls, total_raw_amount, most_active, known_entity}
use open_chain.Graph.Items.{asset_key}

pub record CounterpartyStats : Type 0 where
  pub address : Text
  pub count : ℕ
  pub latest : ℕ
  pub totals : List (Text × ℤ)
  pub known : Bool

abbrev pub Stats : Type 0
Stats = List (Text × CounterpartyStats)

-- The other side of a transfer, seen from `seed`.
unfoldable pub counterparty : Text → TransferItem → Text
counterparty seed t = if equal_fold t.from seed then t.to else t.from

-- The test `counterparty == "" || EqualFold(counterparty, seed)`.
unfoldable pub passed_over : Text → TransferItem → Bool
unfolding counterparty
passed_over seed t = is_empty (counterparty seed t) || equal_fold (counterparty seed t) seed

unfoldable pub add_total : TransferItem → List (Text × ℤ) → List (Text × ℤ)
add_total t totals = elim (set_string t.amount_base_units) [
  | none ↦ totals
  | some amount ↦
      assign (asset_key t.asset) (add_ℤ (get_or (asset_key t.asset) (pos 0) totals) amount) totals
]

unfoldable pub count_in : TransferItem → CounterpartyStats → CounterpartyStats
unfolding add_total
count_in t s = record s {
  count = suc s.count;
  latest = if ltb s.latest t.timestamp then t.timestamp else s.latest;
  totals = add_total t s.totals;
}

module _ (seed : Text) (known : List (Text × Bool)) where
  unfoldable pub fresh : Text → CounterpartyStats
  fresh c = record { address = c; count = 0; latest = 0; totals = []; known = get_or c false known }

  -- The first loop.
  unfoldable pub gather : Stats → List TransferItem → Stats
  unfolding count_in fresh passed_over
  gather stats [] = stats
  gather stats (t ∷ ts) =
      let c = counterparty seed t in
      gather
        (if passed_over seed t
          then stats
          else assign c (count_in t (get_or c (fresh c) stats)) stats)
        ts

-- The last two tests of both orders: the later one first, then by address.
unfoldable pub later : CounterpartyStats → CounterpartyStats → Bool
later first second =
    if first.latest == second.latest
    then before first.address second.address
    else ltb second.latest first.latest

-- The order of a ranking.
unfoldable pub ranks_before : Text → CounterpartyStats → CounterpartyStats → Bool
unfolding later
ranks_before ranking first second =
    if same ranking most_active && not (first.count == second.count)
    then ltb second.count first.count
    else if same ranking known_entity
        && ((first.known && not second.known) || (not first.known && second.known))
    then first.known
    else later first second

unfoldable pub total_of : Text → CounterpartyStats → ℤ
total_of key s = get_or key (pos 0) s.totals

-- The order within an asset.
unfoldable pub outweighs : Text → CounterpartyStats → CounterpartyStats → Bool
unfolding later total_of
outweighs key first second =
    if ltb_ℤ (total_of key second) (total_of key first)
    then true
    else if ltb_ℤ (total_of key first) (total_of key second)
    then false
    else later first second

abbrev pub addresses : List CounterpartyStats → List Text
addresses = map (λ (s : CounterpartyStats). s.address)

-- The last loop: the transfers of the selected counterparties.
unfoldable pub keep_selected : Text → List Text → List TransferItem → List TransferItem
keep_selected seed selected ts = keep (λ t. contains (counterparty seed t) selected) ts

unfoldable pub add_keys : List Text → List Text → List Text
add_keys [] seen = seen
add_keys (k ∷ ks) seen = add_keys ks (if contains k seen then seen else k ∷ seen)

-- The keys of byAsset.
unfoldable pub asset_keys : List CounterpartyStats → List Text → List Text
unfolding add_keys
asset_keys [] seen = seen
asset_keys (s ∷ ss) seen = asset_keys ss (add_keys (keys s.totals) seen)

unfoldable pub chosen_by_asset : List CounterpartyStats → ℕ → List Text → List Text
chosen_by_asset items limit [] = []
chosen_by_asset items limit (key ∷ ks) =
    addresses (take limit (sort (outweighs key) (keep (λ s. contains key (keys s.totals)) items)))
    ++ chosen_by_asset items limit ks

-- selectCounterpartiesByAsset
unfoldable pub select_counterparties_by_asset :
    List TransferItem → Stats → ℕ → Text → List TransferItem
unfolding chosen_by_asset asset_keys
select_counterparties_by_asset ts stats limit seed =
    keep_selected seed
      (chosen_by_asset (values stats) limit (sort before (asset_keys (values stats) []))) ts

-- The addresses that a ranking selects.
unfoldable pub chosen : List CounterpartyStats → ℕ → Text → List Text
chosen items limit ranking = addresses (take limit (sort (ranks_before ranking) items))

-- selectCounterpartyTransfersWithKnown
unfoldable pub select_counterparty_transfers_with_known :
    List TransferItem → Text → ℕ → Text → List (Text × Bool) → List TransferItem
unfolding chosen
select_counterparty_transfers_with_known ts seed max_counterparties ranking known =
    let (limit, r) = graph_controls max_counterparties ranking in
    let stats = gather seed known [] ts in
    if same r total_raw_amount
    then select_counterparties_by_asset ts stats limit seed
    else keep_selected seed (chosen (values stats) limit r) ts

-- selectCounterpartyTransfers
unfoldable pub select_counterparty_transfers :
    List TransferItem → Text → ℕ → Text → List TransferItem
select_counterparty_transfers ts seed max_counterparties ranking =
    select_counterparty_transfers_with_known ts seed max_counterparties ranking []

module _ (has_labels : Text → Bool) (seed : Text) where
  -- The loop of knownCounterparties.
  unfoldable pub known_loop : List (Text × Bool) → List TransferItem → List (Text × Bool)
  known_loop known [] = known
  known_loop known (t ∷ ts) =
      let c = counterparty seed t in
      known_loop
        (if passed_over seed t || contains c (keys known)
          then known
          else assign c (has_labels c) known)
        ts

-- knownCounterparties; `none` is no registry.
unfoldable pub known_counterparties :
    Option (Text → Bool) → List TransferItem → Text → Text → List (Text × Bool)
known_counterparties none ts seed ranking = []
known_counterparties (some has_labels) ts seed ranking =
    if same ranking known_entity then known_loop has_labels seed [] ts else []
