-- ===== src/Graph/Resolve/Writes.antt =====
-- What a trace writes, by its reply.
use open_chain.Prelude.{
  ◌≡◌, refl, true, false, Option, none, some, List, [], ◌∷◌, Text, All, Bool-cases, Option-cases,
  inl, inr,
}
use open_chain.Transfers.{TransferItem, Transfer}
use open_chain.Source.{TransferPage}
use open_chain.Rules.Leads.{Lead}
use open_chain.Rules.Evaluate.{RuleRun}
use open_chain.Bridge.Transition.{Transition}
use open_chain.Graph.Controls.{graph_depth, page_limit}
use open_chain.Graph.Confirmation.{confirmation_source_status}
use open_chain.Graph.Items.{persisted_transfer_ids, to_transfers}
use open_chain.Graph.Nodes.{graph}
use open_chain.Graph.Traverse.{traverse_stored_graph}
use open_chain.Graph.Transitions.{resolve_bridge_transitions}
use open_chain.Graph.Resolve.{
  Engine, Request, Failure, not_configured, bad_address, bridge_failed, Database, Reply, failed,
  answered, Address, AcquisitionScope, Write, acquisitions, evidence, rule_runs, scope_of, acquired,
  selected_transfers, provider_error, from_stored, evidence_write, with_transitions, with_page,
  resolve_graph,
}

-- Runs of the rules are stored by no failed trace.
abbrev pub Unfinished : Database → Write → Type 0
Unfinished d (acquisitions s) = Unit
Unfinished d (evidence s as' ts bs) = Unit
Unfinished d (rule_runs runs) = d.accepts (rule_runs runs) ≡ false

-- The writes that fit a reply.
abbrev pub Fits : Option Database → Reply × List Write → Type 0
Fits none (reply, ws) = ws ≡ []
Fits (some d) (failed f, ws) = All (Unfinished d) ws
Fits (some d) (answered r, ws) =
    (s : AcquisitionScope) × (ads : List Address) × (ts : List Transfer) × (bs : List Transition)
    × (runs : List RuleRun) × (ws ≡ evidence s ads ts bs ∷ rule_runs runs ∷ [])
    × (d.accepts (evidence s ads ts bs) ≡ true)
    × (d.accepts (rule_runs runs) ≡ true)

nothing : (db : Option Database) (f : Failure) → Fits db (failed f, [])
nothing none f = refl
nothing (some d) f = tt

module _ (e : Engine) (q : Request) (address : Text) where
  provider_error-Fits : (db : Option Database) → Fits db (provider_error e q address db)
  unfolding provider_error acquired
  provider_error-Fits none = refl
  provider_error-Fits (some d) = elim (Bool-cases (d.accepts (acquired e q address))) [
    | inl a ↦ rw (a, provider_error) (tt, tt)
    | inr a ↦ rw (a, provider_error) (tt, tt)
  ]

  from_stored-Fits :
      (d : Database) (page : TransferPage) (persisted : List Transfer) (leads : List Lead)
      (s : AcquisitionScope) (ads : List Address) (ts : List Transfer) (bs : List Transition)
      (runs : List RuleRun)
      → d.accepts (evidence s ads ts bs) ≡ true
      → Fits
          (some d)
          (from_stored e q address d page persisted leads (evidence s ads ts bs) (rule_runs runs))
  unfolding from_stored
  from_stored-Fits d page persisted leads s ads ts bs runs a =
      elim (Option-cases
        (traverse_stored_graph (scope_of e q d) address (graph_depth q.max_depth))) [
          | inl g ↦ rw (g, from_stored) (tt, tt)
          | inr (stored, g) ↦
              elim (Option-cases (d.transitions_for (persisted_transfer_ids persisted))) [
                | inl k ↦ rw (g, k, from_stored) (tt, tt)
                | inr (cs, k) ↦ elim (Bool-cases (d.accepts (rule_runs runs))) [
                  | inl b ↦ rw (g, k, b, from_stored) (s, ads, ts, bs, runs, refl, a, b)
                  | inr b ↦ rw (g, k, b, from_stored) (tt, (b, tt))
                ]
              ]
        ]

  with_transitions-Fits :
      (page : TransferPage) (ts : List TransferItem) (bs : List Transition)
      → Fits e.database (with_transitions e q address page ts bs)
  unfolding with_transitions evidence_write
  with_transitions-Fits page ts bs = elim (Option-cases e.database) [
    | inl g ↦ rw (g, with_transitions) refl
    | inr (d, g) ↦
        elim (Bool-cases (
          d.accepts (
            evidence_write e q address page (graph e.oracle address ts page).0
              (to_transfers e.oracle.network e.oracle.normalize ts page.source_status) bs))) [
                | inl a ↦ rw (g, a, with_transitions) (from_stored-Fits d page _ _ _ _ _ _ _ a)
                | inr a ↦ rw (g, a, with_transitions) (tt, tt)
              ]
  ]

  with_page-Fits : (p : Option TransferPage) → Fits e.database (with_page e q address p)
  unfolding with_page
  with_page-Fits none = provider_error-Fits e.database
  with_page-Fits (some p) =
      let page = record p {
        source_status = confirmation_source_status e.oracle.network p.source_status;
      } in
      let ts = selected_transfers e q address page in
      elim (Option-cases (
        resolve_bridge_transitions e.oracle.network e.bridges ts
          (to_transfers e.oracle.network e.oracle.normalize ts page.source_status))) [
            | inl g ↦ rw (g, with_page) (nothing e.database bridge_failed)
            | inr (bs, g) ↦ rw (g, with_page) (with_transitions-Fits page ts bs)
          ]

-- A trace with a database that is answered has tried two writes, its evidence and then the runs of the
-- rules, and both were accepted; where it fails, no runs of the rules were accepted. Without a database
-- nothing is written.
pub resolve_graph-Fits :
    (e : Engine) (q : Request) (value : Text) → Fits e.database (resolve_graph e q value)
unfolding resolve_graph
resolve_graph-Fits e q value = elim (Option-cases e.list_transfers) [
  | inl g ↦ rw (g, resolve_graph) (nothing e.database not_configured)
  | inr (list, g) ↦ elim (Option-cases (e.oracle.normalize value)) [
    | inl k ↦ rw (g, k, resolve_graph) (nothing e.database bad_address)
    | inr (address, k) ↦
        rw (g, k, resolve_graph)
          (with_page-Fits e q address (list address (page_limit q.limit) q.cursor))
  ]
]
