-- ===== src/Graph/Select/Chosen.antt =====
-- How many counterparties a selection keeps, and which.
use open_chain.Prelude.{
  ℕ, ◌≤◌, ◌≡◌, refl, Bool, true, false, List, [], ◌∷◌, map, Text, same, length, take, keep, All,
  length-take, arith, Bool-cases, inl, inr,
}
use open_chain.Prelude.Sets.{contains, IsDistinct, length-le-IsDistinct}
use open_chain.Prelude.Dict.{values}
use open_chain.Prelude.Sort.{sort}
use open_chain.Transfers.{TransferItem}
use open_chain.Graph.Controls.{graph_controls, total_raw_amount}
use open_chain.Graph.Select.{
  CounterpartyStats, counterparty, gather, ranks_before, addresses, chosen, add_keys, keep_selected,
  select_counterparty_transfers_with_known,
}

-- The counterparties of transfers, each once.
abbrev pub counterparties : Text → List TransferItem → List Text
counterparties seed ts = add_keys (map (counterparty seed) ts) []

add_keys-IsDistinct : (ks seen : List Text) → IsDistinct seen → IsDistinct (add_keys ks seen)
unfolding add_keys
add_keys-IsDistinct [] seen d = d
add_keys-IsDistinct (k ∷ ks) seen d = elim (Bool-cases (contains k seen)) [
  | inl e ↦ rw e (add_keys-IsDistinct ks seen d)
  | inr e ↦ rw e (add_keys-IsDistinct ks (k ∷ seen) (e, d))
]

All-add_keys :
    (P : Text → Type 0) (ks seen : List Text) → All P ks → All P seen → All P (add_keys ks seen)
unfolding add_keys
All-add_keys P [] seen h d = d
All-add_keys P (k ∷ ks) seen (h, hs) d = elim (Bool-cases (contains k seen)) [
  | inl e ↦ rw e (All-add_keys P ks seen hs d)
  | inr e ↦ rw e (All-add_keys P ks (k ∷ seen) hs (h, d))
]

keep_selected_lem :
    (seed : Text) (selected : List Text) (ts : List TransferItem)
    → All
        (λ k. contains k selected ≡ true)
        (map (counterparty seed) (keep_selected seed selected ts))
unfolding keep_selected
keep_selected_lem seed selected [] = tt
keep_selected_lem seed selected (t ∷ ts) =
    elim (Bool-cases (contains (counterparty seed t) selected)) [
      | inl e ↦ rw (e, keep) (e, keep_selected_lem seed selected ts)
      | inr e ↦ rw (e, keep) (keep_selected_lem seed selected ts)
    ]

length-addresses : (ss : List CounterpartyStats) → length (addresses ss) ≡ length ss
length-addresses [] = refl
length-addresses (s ∷ ss) = omega (arith, length-addresses ss)

length-chosen :
    (items : List CounterpartyStats) (limit : ℕ) (ranking : Text)
    → length (chosen items limit ranking) ≤ limit
unfolding chosen
length-chosen items limit ranking = omega (
  arith,
  length-addresses (take limit (sort (ranks_before ranking) items)),
  length-take limit (sort (ranks_before ranking) items),
)

-- Under any ranking but that by raw amounts, the selected transfers are with no more counterparties than
-- the controls allow.
pub length-counterparties :
    (ts : List TransferItem) (seed : Text) (n : ℕ) (ranking : Text) (known : List (Text × Bool))
    → same (graph_controls n ranking).1 total_raw_amount ≡ false
    → length
        (counterparties seed (select_counterparty_transfers_with_known ts seed n ranking known))
      ≤ (graph_controls n ranking).0
unfolding select_counterparty_transfers_with_known
length-counterparties ts seed n ranking known e =
    let selected =
      chosen (values (gather seed known [] ts)) (graph_controls n ranking).0
        (graph_controls n ranking).1 in
    let kept = map (counterparty seed) (keep_selected seed selected ts) in
    rw (e, select_counterparty_transfers_with_known)
      (omega (
        arith,
        length-chosen (values (gather seed known [] ts)) (graph_controls n ranking).0
            (graph_controls n ranking).1,
        length-le-IsDistinct (add_keys kept []) selected (add_keys-IsDistinct kept [] tt) (
            All-add_keys (λ k. contains k selected ≡ true) kept []
              (keep_selected_lem seed selected ts) tt),
      ))
