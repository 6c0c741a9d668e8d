-- ===== src/Graph/Resolve.antt =====
-- ResolveGraph and PendingGraph of internal/tracing/graph.go. The chain adapter, the label registry, the
-- bridge adapters, the rules' digests and JSON, and the clock are fields of the engine or arguments; a
-- write to the database is a value, and the database says which writes it accepts.
pub mod Confirmed
pub mod Writes
use Prim.Native.String.{String}
use open_chain.Prelude.{
  ℕ, ◌%◌, ◌^◌, Bool, true, false, Option, none, some, List, [], ◌∷◌, ◌++◌, map, Text, codes,
  if◌then◌else◌, length, ◌==◌,
}
use open_chain.Prelude.Int.{pos}
use open_chain.Transfers.{TransferItem, Transfer}
use open_chain.Source.{SourceStatus, TransferPage}
use open_chain.Rules.Leads.{Lead}
use open_chain.Rules.Fan.{Parameters}
use open_chain.Rules.Evaluate.{RuleRun, evaluate}
use open_chain.Bridge.Transition.{Transition}
use open_chain.Graph.Controls.{Direction, graph_controls, graph_depth, page_limit}
use open_chain.Graph.Confirmation.{confirmation_source_status}
use open_chain.Graph.Items.{
  normalize_address, filter_transfers, to_transfers, persisted_transfer_ids, short_address,
}
use open_chain.Graph.Select.{select_counterparty_transfers_with_known, known_counterparties}
use open_chain.Graph.Traverse.{Scope, traverse_stored_graph}
use open_chain.Graph.Nodes.{Oracle, GraphNode, GraphEdge, graph, graph_from_stored}
use open_chain.Graph.Coverage.{TraceCoverage, trace_coverage, retrieved_scope_limitation}
use open_chain.Graph.Transitions.{BridgeAdapter, resolve_bridge_transitions}

pub record GraphResult : Type 0 where
  pub network : Text
  pub seed_address : Text
  pub nodes : List GraphNode
  pub edges : List GraphEdge
  pub total_nodes : ℕ
  pub total_edges : ℕ
  pub next_cursor : Text
  pub has_more : Bool
  pub pending : Bool
  pub source_status : SourceStatus
  pub coverage : Option TraceCoverage
  pub leads : List Lead
  pub cross_chain_transitions : List Transition

-- Address of internal/db.
pub record Address : Type 0 where
  pub network : Text
  pub address : Text
  pub label : Text
  pub entity_type : Text

pub record AcquisitionScope : Type 0 where
  pub network : Text
  pub address : Text
  pub cursor : Text
  pub retrieved_at : ℕ

pub data Write : Type 0 where
  acquisitions : AcquisitionScope → Write
  evidence : AcquisitionScope → List Address → List Transfer → List Transition → Write
  rule_runs : List RuleRun → Write

pub record Database : Type 0 where
  pub accepts : Write → Bool
  pub neighbors : Text → Direction → ℕ → Option (List Transfer)
  pub transitions_for : List Text → Option (List Transition)

pub record Engine : Type 0 where
  pub oracle : Oracle
  pub list_transfers : Option (Text → ℕ → Text → Option TransferPage)
  pub registry : Option (Text → Bool)
  pub database : Option Database
  pub bridges : List BridgeAdapter
  pub digest : Text → Text
  pub decode : String → Option Parameters
  pub encode : List Lead → Text

pub data Failure : Type 0 where
  not_configured : Failure
  bad_address : Failure
  provider_failed : Failure
  bridge_failed : Failure
  storage_failed : Failure

pub data Reply : Type 0 where
  failed : Failure → Reply
  answered : GraphResult → Reply

-- What one call asks for, with its clock.
pub record Request : Type 0 where
  pub direction : Direction
  pub limit : ℕ
  pub cursor : Text
  pub max_counterparties : ℕ
  pub ranking : Text
  pub max_depth : ℕ
  pub now : ℕ

-- toAddresses
unfoldable pub to_addresses : Text → List GraphNode → List Address
to_addresses network ns =
    map
      (λ (n : GraphNode). record {
        network = network;
        address = n.id;
        label = n.label;
        entity_type = n.entity_type;
      })
      ns

module _ (e : Engine) where
  -- The fields of a result that graphFromEdges sets.
  unfoldable pub result_of : Text → TransferPage → List GraphNode × List GraphEdge → GraphResult
  result_of seed page (ns, es) = record {
    network = e.oracle.network;
    seed_address = normalize_address e.oracle.network e.oracle.normalize seed;
    nodes = ns;
    edges = es;
    total_nodes = length ns % 2 ^ 32;
    total_edges = length es % 2 ^ 32;
    next_cursor = page.next_cursor;
    has_more = page.has_more;
    pending = false;
    source_status = page.source_status;
    coverage = none;
    leads = [];
    cross_chain_transitions = [];
  }

  -- The transfers of a page that the request selects.
  unfoldable pub selected_transfers : Request → Text → TransferPage → List TransferItem
  selected_transfers q address page =
      let (limit, ranking) = graph_controls q.max_counterparties q.ranking in
      let filtered = filter_transfers page.transfers address q.direction in
      select_counterparty_transfers_with_known filtered address limit ranking
        (known_counterparties e.registry filtered address ranking)

  unfoldable pub scope_of : Request → Database → Scope
  scope_of q d =
      let (limit, ranking) = graph_controls q.max_counterparties q.ranking in
      record {
        network = e.oracle.network;
        normalize = e.oracle.normalize;
        registry = e.registry;
        neighbors = d.neighbors;
        direction = q.direction;
        page_size = page_limit q.limit;
        max_counterparties = limit;
        ranking = ranking;
      }

  -- The coverage with the limitation that ResolveGraph writes at the end.
  unfoldable pub limited : TraceCoverage → TraceCoverage
  limited c = record c {
    limitation =
        retrieved_scope_limitation
        ++ codes
            " AGE traversal only includes persisted observations within the selected depth and bounded per-address graph scope.";
  }

  unfoldable pub completed : GraphResult → TraceCoverage → List Lead → List Transition → GraphResult
  completed r c ls bs = record r {
    coverage = some (limited c);
    leads = ls;
    cross_chain_transitions = bs;
  }

  module _ (q : Request) (address : Text) where
    unfoldable pub acquired : Write
    acquired = acquisitions (record {
      network = e.oracle.network;
      address = address;
      cursor = q.cursor;
      retrieved_at = q.now;
    })

    -- A page whose provider failed: what was acquired is saved.
    unfoldable pub provider_error : Option Database → Reply × List Write
    provider_error none = (failed provider_failed, [])
    provider_error (some d) = (
      if d.accepts acquired then failed provider_failed else failed storage_failed,
      acquired ∷ [],
    )

    -- Behind the write of the evidence: the stored graph, the stored transitions and the rules' runs.
    unfoldable pub from_stored :
        Database → TransferPage → List Transfer → List Lead → Write → Write → Reply × List Write
    from_stored d page persisted leads w runs =
        elim (traverse_stored_graph (scope_of q d) address (graph_depth q.max_depth)) [
          | none ↦ (failed storage_failed, w ∷ [])
          | some stored ↦ elim (d.transitions_for (persisted_transfer_ids persisted)) [
            | none ↦ (failed storage_failed, w ∷ [])
            | some bs ↦
                if d.accepts runs
                then (
                  answered (
                      completed (result_of address page (graph_from_stored e.oracle address stored))
                        (trace_coverage (page_limit q.limit) q.cursor page persisted stored) leads
                        bs),
                  w ∷ runs ∷ [],
                )
                else (failed storage_failed, w ∷ runs ∷ [])
          ]
        ]

    -- The scope and the contents of SaveEvidenceGraph.
    unfoldable pub evidence_write :
        TransferPage → List GraphNode → List Transfer → List Transition → Write
    evidence_write page ns persisted bs =
        evidence
          (record {
            network = e.oracle.network;
            address = address;
            cursor = q.cursor;
            retrieved_at =
                if page.source_status.retrieved_at == 0
                then q.now
                else page.source_status.retrieved_at;
          })
          (to_addresses e.oracle.network ns) persisted bs

    -- A page, with its confirmation status, whose bridge transitions are resolved.
    unfoldable pub with_transitions :
        TransferPage → List TransferItem → List Transition → Reply × List Write
    with_transitions page items bs =
        let persisted = to_transfers e.oracle.network e.oracle.normalize items page.source_status in
        let (leads, runs) = evaluate e.digest e.decode e.encode e.oracle.network q.now persisted in
        let drawn = graph e.oracle address items page in
        elim e.database [
          | none ↦ (
            answered (
                completed (result_of address page drawn)
                  (trace_coverage (page_limit q.limit) q.cursor page persisted persisted) leads bs),
            [],
          )
          | some d ↦
              let w = evidence_write page drawn.0 persisted bs in
              if d.accepts w
              then from_stored d page persisted leads w (rule_runs runs)
              else (failed storage_failed, w ∷ [])
        ]

    unfoldable pub with_page : Option TransferPage → Reply × List Write
    with_page none = provider_error e.database
    with_page (some p) =
        let page = record p {
          source_status = confirmation_source_status e.oracle.network p.source_status;
        } in
        let items = selected_transfers q address page in
        elim (resolve_bridge_transitions e.oracle.network e.bridges items
          (to_transfers e.oracle.network e.oracle.normalize items page.source_status)) [
            | none ↦ (failed bridge_failed, [])
            | some bs ↦ with_transitions page items bs
          ]

  -- ResolveGraph: the reply, and the writes that were tried, in order.
  unfoldable pub resolve_graph : Request → Text → Reply × List Write
  resolve_graph q value = elim e.list_transfers [
    | none ↦ (failed not_configured, [])
    | some list ↦ elim (e.oracle.normalize value) [
      | none ↦ (failed bad_address, [])
      | some address ↦ with_page q address (list address (page_limit q.limit) q.cursor)
    ]
  ]

  -- PendingGraph
  unfoldable pub pending_trace : Text → Text → Text → ℕ → GraphResult
  pending_trace address source warning now =
      let seed = normalize_address e.oracle.network e.oracle.normalize address in
      record {
        network = e.oracle.network;
        seed_address = seed;
        nodes =
            record {
              id = seed;
              label = short_address seed;
              entity_type = codes "EOA";
              is_seed = true;
              in_tx_count = 0;
              out_tx_count = 0;
              total_volume_by_asset = [];
              labels = [];
            }
            ∷ [];
        edges = [];
        total_nodes = 1;
        total_edges = 0;
        next_cursor = [];
        has_more = false;
        pending = true;
        source_status = record {
          source = source;
          retrieved_at = now;
          indexed_up_to_block = pos 0;
          latest_chain_block = pos 0;
          is_complete = false;
          warning = warning;
        };
        coverage = none;
        leads = [];
        cross_chain_transitions = [];
      }
