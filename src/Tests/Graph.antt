-- ===== src/Tests/Graph.antt =====
-- Traces of small pages: internal/tracing/graph.go.
use Prim.Native.String.{String}
use open_chain.Prelude.{
  ℕ, ◌+◌, ◌≤◌, ◌<◌, ◌≡◌, refl, true, false, Option, none, some, List, [], ◌∷◌, Text, codes, same,
  if◌then◌else◌, length, ◌↔◌, All, arith, before, equal_fold, is_empty, lower,
}
use open_chain.Prelude.Int.{pos}
use open_chain.Transfers.{Asset, TransferItem, Transfer}
use open_chain.Source.{SourceStatus, TransferPage}
use open_chain.Graph.Controls.{
  Direction, both, counterparty_control, graph_controls, graph_depth, ranking_control,
}
use open_chain.Graph.Traverse.{
  Scope, traverse_stored_graph, keep_transfer, other_end, scan_neighbors, selected_ids, walk_from,
  walk_hops, walk_level,
}
use open_chain.Graph.Traverse.Reached.{Observed, traverse_stored_graph-Observed}
use open_chain.Graph.Traverse.Bounds.{length-traverse_stored_graph}
use open_chain.Prelude.Sort.{insert, sort}
use open_chain.Graph.Items.{
  filter_transfers, goes, normalize_address, stored_item, stored_items, transfer_id,
}
use open_chain.Prelude.Sets.{contains}
use open_chain.Graph.Select.{
  chosen, count_in, counterparty, fresh, gather, keep_selected, known_counterparties, later,
  passed_over, ranks_before, select_counterparty_transfers_with_known,
}
use open_chain.Prelude.Dict.{assign, get_or}
use open_chain.Graph.Controls.{most_active, total_raw_amount}
use open_chain.Graph.Confirmation.{is_provisional, confirmation_threshold, is_provisional_iff}
use open_chain.Graph.Select.Chosen.{counterparties, length-counterparties}
use open_chain.Graph.Nodes.{Oracle, GraphEdge, stored_edge, graph_from_edges}
use open_chain.Graph.Nodes.Counts.{Counts, graph_from_edges-Counts}
use open_chain.Graph.Coverage.{trace_coverage}
use open_chain.Graph.Controls.{page_limit}
use open_chain.Graph.Confirmation.{confirmation_source_status}
use open_chain.Graph.Items.{to_transfers}
use open_chain.Graph.Nodes.{graph, graph_from_stored}
use open_chain.Graph.Nodes.Joins.{IsJoined, graph-IsJoined}
use open_chain.Source.Address.{normalize_ethereum_address, normalize_ethereum_address-IsLowerHex}
use open_chain.Bridge.Transition.{Transition, initiated}
use open_chain.Rules.Leads.{Lead}
use open_chain.Rules.Fan.{Parameters}
use open_chain.Rules.Evaluate.{evaluate}
use open_chain.Graph.Transitions.{
  bridge_source_transfer_id, resolve_bridge_transitions, is_source_of, match_source,
}
use open_chain.Graph.Transitions.Unique.{the_only, source_ids, bridge_source_transfer_id-the_only}
use open_chain.Graph.Resolve.{
  Engine, Request, Database, answered, acquisitions, evidence, rule_runs, GraphResult, completed,
  result_of, selected_transfers, resolve_graph, with_page, with_transitions,
}
use open_chain.Graph.Resolve.Confirmed.{ConfirmedId, resolve_graph-ConfirmedId}
use open_chain.Graph.Resolve.Writes.{Fits, resolve_graph-Fits}
use open_chain.Graph.Coverage.Adds.{outside, trace_coverage_adds}

abbrev coin : Asset
coin = record { kind = codes "native"; contract_address = []; symbol = codes "ETH"; decimals = 18 }

-- A stored transfer of five base units.
abbrev sent : ℕ → String → String → Transfer
sent n payer payee = record {
  id = n ∷ [];
  network = codes "ethereum-mainnet";
  transaction_hash = n ∷ [];
  event_id = [];
  transfer_kind = codes "native";
  from_address = codes payer;
  to_address = codes payee;
  asset = coin;
  amount_base_units = codes "5";
  block_number = pos 7;
  block_hash = [];
  block_timestamp = 10 + n;
  provisional = false;
  source = codes "chain";
  retrieved_at = 9;
}

abbrev near : Transfer
near = record (sent 1 "a" "b") { id = codes "ethereum-mainnet:1:"; transaction_hash = codes "1" }

abbrev far : Transfer
far = record (sent 2 "b" "c") { id = codes "ethereum-mainnet:2:"; transaction_hash = codes "2" }

-- A database of two transfers.
abbrev two_stored : Text → Direction → ℕ → Option (List Transfer)
two_stored c direction n = some (
    if same c (codes "a")
    then near ∷ []
    else if same c (codes "b")
    then near ∷ far ∷ []
    else far ∷ [])

abbrev stored_scope : Scope
stored_scope = record {
  network = codes "ethereum-mainnet";
  normalize = λ t. some t;
  registry = none;
  neighbors = two_stored;
  direction = both;
  page_size = 25;
  max_counterparties = 10;
  ranking = codes "recent";
}

walked : traverse_stored_graph stored_scope (codes "a") 2 ≡ some (near ∷ far ∷ [])
unfolding traverse_stored_graph walk_hops graph_depth walk_level sort scan_neighbors same
    normalize_address contains selected_ids select_counterparty_transfers_with_known graph_controls
    keep_selected filter_transfers stored_items gather is_empty equal_fold counterparty_control
    ranking_control goes stored_item transfer_id chosen count_in counterparty fresh
    known_counterparties passed_over ranks_before keep_transfer other_end walk_from assign get_or
    insert before lower later
walked = refl

traverse_stored_graph-Observed_example :
    All (Observed stored_scope (codes "a") (graph_depth 2)) (near ∷ far ∷ [])
traverse_stored_graph-Observed_example =
    traverse_stored_graph-Observed stored_scope (codes "a") 2 (near ∷ far ∷ []) walked

two_stored_few : (c : Text) (ns : List Transfer) → two_stored c both 25 ≡ some ns → length ns ≤ 2
two_stored_few c ns e = ground (arith, e)

length-traverse_stored_graph_example : length (near ∷ far ∷ []) < 250 + 2
length-traverse_stored_graph_example =
    length-traverse_stored_graph stored_scope 2 two_stored_few (codes "a") 2 (near ∷ far ∷ [])
      walked

abbrev ethereum : Text
ethereum = codes "ethereum-mainnet"

abbrev settled : SourceStatus
settled = record {
  source = codes "chain";
  retrieved_at = 50;
  indexed_up_to_block = pos 90;
  latest_chain_block = pos 100;
  is_complete = true;
  warning = [];
}

is_provisional_iff_example : (is_provisional ethereum (pos 7) settled ≡ false) ↔ (
    (threshold : ℕ) × (b : ℕ) × (h : ℕ) × (confirmation_threshold ethereum ≡ some threshold)
    × (pos 7 ≡ pos b)
    × (pos 100 ≡ pos h)
    × (0 < b)
    × (b + threshold ≤ h))
is_provisional_iff_example = is_provisional_iff ethereum (pos 7) settled

-- A fresh transfer of five base units.
abbrev item : ℕ → String → String → TransferItem
item n payer payee = record {
  hash = (b'0' + n) ∷ [];
  event_id = [];
  transfer_kind = codes "native";
  from = codes payer;
  to = codes payee;
  amount_base_units = codes "5";
  asset = coin;
  block_number = pos 7;
  block_hash = [];
  timestamp = 10 + n;
}

abbrev received : List TransferItem
received = item 1 "b" "a" ∷ item 2 "c" "a" ∷ item 3 "d" "a" ∷ []

by_activity : same (graph_controls 2 most_active).1 total_raw_amount ≡ false
unfolding graph_controls ranking_control same
by_activity = refl

length-counterparties_example :
    length (
      counterparties
        (codes "a")
        (select_counterparty_transfers_with_known received (codes "a") 2 most_active []))
    ≤ (graph_controls 2 most_active).0
length-counterparties_example =
    length-counterparties received (codes "a") 2 most_active [] by_activity

abbrev oracle : Oracle
oracle = record {
  network = ethereum;
  normalize = λ t. some t;
  labels_of = λ t. [];
  is_contract = λ t. some false;
}

abbrev edges : List GraphEdge
edges = stored_edge oracle near ∷ stored_edge oracle far ∷ []

graph_from_edges-Counts_example :
    All (Counts oracle edges) (graph_from_edges oracle (codes "a") edges).0
graph_from_edges-Counts_example = graph_from_edges-Counts oracle (codes "a") edges

abbrev page : TransferPage
page = record { transfers = received; next_cursor = []; has_more = false; source_status = settled }

-- The chain's own normal form, of an address in mixed case among others.
abbrev ethereum_oracle : Oracle
ethereum_oracle = record oracle { normalize = normalize_ethereum_address }

abbrev mixed_item : TransferItem
mixed_item = item 4 "0x52908400098527886E0F7030069857D2E4169EE7" "a"

graph-IsJoined_example :
    IsJoined
      (normalize_address ethereum normalize_ethereum_address (codes "a"))
      (graph ethereum_oracle (codes "a") (mixed_item ∷ received) page)
    × IsJoined
        (normalize_address ethereum normalize_ethereum_address (codes "a"))
        (graph_from_stored ethereum_oracle (codes "a") (near ∷ far ∷ []))
graph-IsJoined_example =
    graph-IsJoined ethereum_oracle
      (λ value a e. (normalize_ethereum_address-IsLowerHex value a e).1) (codes "a")
      (mixed_item ∷ received) page (near ∷ far ∷ [])

trace_coverage_adds_example :
    ((trace_coverage 25 [] page (near ∷ []) (near ∷ far ∷ [])).provisional_transfer_count
        + (trace_coverage 25 [] page
            (near ∷ [])
            (near ∷ far ∷ [])).confirmation_backed_transfer_count
      ≡ (trace_coverage 25 [] page (near ∷ []) (near ∷ far ∷ [])).rule_input_transfer_count)
    × ((trace_coverage 25 [] page (near ∷ []) (near ∷ far ∷ [])).stored_history_transfer_count
        ≡ outside (near.id ∷ []) (near ∷ far ∷ []))
    × ((trace_coverage 25 [] page (near ∷ []) (near ∷ far ∷ [])).stored_history_transfer_count
        ≤ (trace_coverage 25 [] page (near ∷ []) (near ∷ far ∷ [])).stored_graph_transfer_count)
trace_coverage_adds_example =
    trace_coverage_adds 25 [] page (near ∷ []) (near ∷ far ∷ []) (omega arith) (omega arith)

-- A transition whose source is the second stored transfer.
abbrev moved : Transition
moved = record {
  id = [];
  protocol = [];
  bridge_name = [];
  source_network = ethereum;
  destination_network = codes "base-mainnet";
  lifecycle = initiated;
  message_id = [];
  source_transfer_id = [];
  destination_transfer_id = [];
  source_transaction_hash = codes "2";
  destination_transaction_hash = [];
  source_log_reference = [];
  destination_log_reference = [];
  source_bridge_address = codes "c";
  destination_bridge_address = [];
  canonical_source_token = [];
  canonical_destination_token = [];
  recipient = [];
  amount_base_units = codes "5";
  limitations = [];
  asset = coin;
  source_block_number = 7;
  destination_block_number = 0;
  source_block_hash = [];
  destination_block_hash = [];
  source_timestamp = 0;
  destination_timestamp = 0;
  source_confirmed = false;
  destination_confirmed = false;
  source_acquisition_hashes = [];
  destination_acquisition_hashes = [];
  source_acquisition_ids = [];
  destination_acquisition_ids = [];
}

bridge_source_transfer_id-the_only_example :
    bridge_source_transfer_id moved (near ∷ far ∷ [])
    ≡ the_only (source_ids moved (near ∷ far ∷ []))
unfolding is_empty
bridge_source_transfer_id-the_only_example =
    bridge_source_transfer_id-the_only moved (near ∷ far ∷ []) (refl, (refl, tt))

-- A transition that is linked to the one transfer it fits.
linked : bridge_source_transfer_id moved (near ∷ far ∷ []) ≡ far.id
unfolding bridge_source_transfer_id match_source is_source_of equal_fold same lower is_empty
linked = refl

abbrev parameters_of : String → Option Parameters
parameters_of s =
    some (record { window_seconds = 86_400; min_distinct_counterparties = 3; min_hops = 3 })

abbrev engine : Option Database → Engine
engine d = record {
  oracle = oracle;
  list_transfers = some (λ a n cursor. some page);
  registry = none;
  database = d;
  bridges = [];
  digest = λ t. t;
  decode = parameters_of;
  encode = λ ls. [];
}

abbrev request : Request
request = record {
  direction = both;
  limit = 25;
  cursor = [];
  max_counterparties = 5;
  ranking = most_active;
  max_depth = 2;
  now = 60;
}

abbrev confirmed_page : TransferPage
confirmed_page = record page { source_status = confirmation_source_status ethereum settled }

-- The traced page: three payments of the seed's within the window of the first rule.
abbrev selected : List TransferItem
selected = selected_transfers (engine none) request (codes "a") confirmed_page

abbrev persisted : List Transfer
persisted = to_transfers ethereum (λ t. some t) selected confirmed_page.source_status

abbrev traced : GraphResult
traced =
    completed (engine none)
      (result_of (engine none) (codes "a") confirmed_page
        (graph oracle (codes "a") selected confirmed_page))
      (trace_coverage (page_limit 25) [] confirmed_page persisted persisted)
      (evaluate (λ t. t) parameters_of (λ ls. []) ethereum 60 persisted).0 []

no_bridges :
    (ts : List TransferItem) (qs : List Transfer)
    → resolve_bridge_transitions ethereum [] ts qs ≡ some []
unfolding resolve_bridge_transitions
no_bridges [] qs = refl
no_bridges (t ∷ ts) qs = refl

page_answers :
    (e : Engine) (q : Request) (address : Text) (p : TransferPage) (bs : List Transition)
    → resolve_bridge_transitions e.oracle.network e.bridges
        (selected_transfers e q address (record p {
          source_status = confirmation_source_status e.oracle.network p.source_status;
        }))
        (to_transfers e.oracle.network e.oracle.normalize
          (selected_transfers e q address (record p {
            source_status = confirmation_source_status e.oracle.network p.source_status;
          }))
          (confirmation_source_status e.oracle.network p.source_status))
      ≡ some bs
    → with_page e q address (some p)
      ≡ with_transitions e q address
          (record p { source_status = confirmation_source_status e.oracle.network p.source_status })
          (selected_transfers e q address (record p {
            source_status = confirmation_source_status e.oracle.network p.source_status;
          }))
          bs
unfolding with_page
page_answers e q address p bs g = rw (g, with_page) refl

trace_answers : resolve_graph (engine none) request (codes "a") ≡ (answered traced, [])
unfolding resolve_graph with_transitions
trace_answers =
    page_answers (engine none) request (codes "a") page [] (no_bridges selected persisted)

resolve_graph-ConfirmedId_example :
    All (λ (l : Lead). All (ConfirmedId ethereum (pos 100) received) l.transfer_ids) traced.leads
resolve_graph-ConfirmedId_example =
    resolve_graph-ConfirmedId (engine none) request (codes "a") (codes "a")
      (λ a n cursor. some page) page traced [] refl refl refl trace_answers

-- A database that refuses the runs of the rules.
abbrev stops_late : Database
stops_late = record {
  accepts =
      λ w. elim w [ acquisitions s ↦ true | evidence s ads ts bs ↦ true | rule_runs runs ↦ false ];
  neighbors = two_stored;
  transitions_for = λ ids. some [];
}

resolve_graph-Fits_example :
    Fits (some stops_late) (resolve_graph (engine (some stops_late)) request (codes "a"))
resolve_graph-Fits_example = resolve_graph-Fits (engine (some stops_late)) request (codes "a")
