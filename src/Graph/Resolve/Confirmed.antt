-- ===== src/Graph/Resolve/Confirmed.antt =====
-- What the leads of a trace rest on.
use mathlib.Core.Path.{subst}
use mathlib.Core.List.{Mem}
use open_chain.Prelude.{
  ℕ, ◌+◌, ◌≤◌, ◌<◌, ◌≡◌, ◌≢◌, refl, sym, ap, ◌∙◌, Bool, false, Option, some, List, [], ◌∷◌, Text,
  same, keep, All, All-keep, All-Mem, arith, Bool-cases, Option-cases, inl, inr,
}
use open_chain.Prelude.Int.{ℤ, pos, ltb_ℤ}
use open_chain.Transfers.{TransferItem, Transfer}
use open_chain.Source.{SourceStatus, TransferPage}
use open_chain.Rules.Leads.{Lead, is_backed, confirmation_backed_transfers}
use open_chain.Rules.Evaluate.{evaluate}
use open_chain.Rules.Evaluate.Cites.{From, Cites, sort_transfers-From}
use open_chain.Rules.Evaluate.Backed.{evaluate-Cites}
use open_chain.Bridge.Transition.{Transition}
use open_chain.Graph.Controls.{graph_depth, page_limit, graph_controls, total_raw_amount}
use open_chain.Graph.Confirmation.{
  confirmation_threshold, confirmation_source_status, is_provisional, is_provisional_iff, warned,
  has_substring, remain_provisional,
}
use open_chain.Graph.Items.{
  persisted_transfer_ids, to_transfer, to_transfers, transfer_id, filter_transfers,
}
use open_chain.Graph.Select.{
  select_counterparty_transfers_with_known, select_counterparties_by_asset, keep_selected,
}
use open_chain.Graph.Nodes.{graph}
use open_chain.Graph.Traverse.{traverse_stored_graph}
use open_chain.Graph.Transitions.{resolve_bridge_transitions}
use open_chain.Graph.Resolve.{
  Engine, Request, Database, scope_of, Reply, failed, answered, GraphResult, Write, completed,
  selected_transfers, from_stored, evidence_write, with_transitions, with_page, resolve_graph,
}

module _ {κ} (P : TransferItem → Type κ) where
  keep_selected-All :
      (seed : Text) (selected : List Text) (ts : List TransferItem)
      → All P ts
      → All P (keep_selected seed selected ts)
  unfolding keep_selected
  keep_selected-All seed selected ts h = All-keep P _ ts h

  select-All :
      (ts : List TransferItem) (seed : Text) (n : ℕ) (ranking : Text) (known : List (Text × Bool))
      → All P ts
      → All P (select_counterparty_transfers_with_known ts seed n ranking known)
  unfolding select_counterparty_transfers_with_known select_counterparties_by_asset
  select-All ts seed n ranking known h =
      elim (Bool-cases (same (graph_controls n ranking).1 total_raw_amount)) [
        | inl e ↦ rw (e, select_counterparty_transfers_with_known) (keep_selected-All seed _ ts h)
        | inr e ↦ rw (e, select_counterparty_transfers_with_known) (keep_selected-All seed _ ts h)
      ]

  selected_transfers-All :
      (e : Engine) (q : Request) (address : Text) (page : TransferPage)
      → All P page.transfers
      → All P (selected_transfers e q address page)
  unfolding selected_transfers filter_transfers
  selected_transfers-All e q address page h =
      select-All _ address _ _ _ (All-keep P _ page.transfers h)

-- The id of a transfer of a page whose block lies so far below the head of the chain as the network's
-- threshold says, and which has a time.
abbrev pub ConfirmedId : Text → ℤ → List TransferItem → Text → Type 0
ConfirmedId network head items i =
    (t : TransferItem) × Mem t items
    × (transfer_id network t.hash t.event_id ≡ i)
    × (t.timestamp ≢ 0)
    × ((threshold : ℕ) × (b : ℕ) × (h : ℕ) × (confirmation_threshold network ≡ some threshold)
        × (t.block_number ≡ pos b)
        × (head ≡ pos h)
        × (0 < b)
        × (b + threshold ≤ h))

abbrev status_of : Text → TransferPage → SourceStatus
status_of network p = confirmation_source_status network p.source_status

latest-status_of :
    (network : Text) (p : TransferPage)
    → (status_of network p).latest_chain_block ≡ p.source_status.latest_chain_block
unfolding confirmation_source_status warned
latest-status_of network p = elim (Option-cases (confirmation_threshold network)) [
  | inl e ↦ rw (e, confirmation_source_status) (warned-latest p.source_status)
  | inr (t, e) ↦ elim (Bool-cases (ltb_ℤ (pos 0) p.source_status.latest_chain_block)) [
    | inl l ↦ rw (e, l, confirmation_source_status) refl
    | inr l ↦ rw (e, l, confirmation_source_status) (warned-latest p.source_status)
  ]
]
  where
    warned-latest : (s : SourceStatus) → (warned s).latest_chain_block ≡ s.latest_chain_block
    warned-latest s = elim (Bool-cases (has_substring remain_provisional s.warning)) [
      | inl e ↦ rw (e, warned) refl
      | inr e ↦ rw (e, warned) refl
    ]

-- The confirmed of the transfers that a trace selects.
module _ (network : Text) (normalize : Text → Option Text) (items : List TransferItem)
    (p : TransferPage) where
  abbrev Backed : Text → Type 0
  Backed = ConfirmedId network p.source_status.latest_chain_block items

  persisted-From :
      (ts : List TransferItem)
      → All (λ t. Mem t items) ts
      → From Backed (keep is_backed (to_transfers network normalize ts (status_of network p)))
  unfolding to_transfers to_transfer
  persisted-From [] h = tt
  persisted-From (t ∷ ts) (m, h) =
      let u = to_transfer network normalize (status_of network p) t in
      elim (Bool-cases (is_backed u)) [
        | inr e ↦ rw (e, keep) (persisted-From ts h)
        | inl e ↦
            let settled : is_provisional network t.block_number (status_of network p) ≡ false =
              unfold is_backed in ground (arith, e) in
            let timed : t.timestamp ≢ 0 = λ z. unfold is_backed in ground (arith, e, z) in
            let (threshold, b, h', known, block, head, low, far) =
              (is_provisional_iff network t.block_number (status_of network p)).0 settled in
            rw (e, keep)
              (
                (
                  t,
                  m,
                  refl,
                  timed,
                  (
                    threshold,
                    b,
                    h',
                    known,
                    block,
                    sym (latest-status_of network p) ∙ head,
                    low,
                    far,
                  ),
                ),
                persisted-From ts h,
              )
      ]

  evaluated-Cites :
      (e : Engine) (now : ℕ) (ts : List TransferItem)
      → All (λ t. Mem t items) ts
      → Cites Backed
          (evaluate e.digest e.decode e.encode network now
            (to_transfers network normalize ts (status_of network p))).0
  unfolding confirmation_backed_transfers
  evaluated-Cites e now ts h =
      evaluate-Cites e.digest e.decode Backed e.encode network now
        (to_transfers network normalize ts (status_of network p))
        (sort_transfers-From Backed
          (keep is_backed (to_transfers network normalize ts (status_of network p)))
          (persisted-From ts h))

module _ (e : Engine) (q : Request) (address : Text) where
  from_stored-leads :
      (d : Database) (page : TransferPage) (persisted : List Transfer) (leads : List Lead)
      (w runs : Write) (r : GraphResult) (ws : List Write)
      → from_stored e q address d page persisted leads w runs ≡ (answered r, ws)
      → r.leads ≡ leads
  unfolding from_stored completed
  from_stored-leads d page persisted leads w runs r ws h =
      elim (Option-cases
        (traverse_stored_graph (scope_of e q d) address (graph_depth q.max_depth))) [
          | inl g ↦ absurd (ground (arith, h, g))
          | inr (stored, g) ↦
              elim (Option-cases (d.transitions_for (persisted_transfer_ids persisted))) [
                | inl k ↦ absurd (ground (arith, h, g, k))
                | inr (bs, k) ↦ elim (Bool-cases (d.accepts runs)) [
                  | inl a ↦ ap leads_of (ap (λ x. x.0) (sym (rw (g, k, a, from_stored) at h)))
                  | inr a ↦ absurd (ground (arith, h, g, k, a))
                ]
              ]
        ]
    where
      leads_of : Reply → List Lead
      leads_of (failed f) = []
      leads_of (answered r) = r.leads

  with_transitions-leads :
      (page : TransferPage) (ts : List TransferItem) (bs : List Transition) (r : GraphResult)
      (ws : List Write)
      → with_transitions e q address page ts bs ≡ (answered r, ws)
      → r.leads
        ≡ (evaluate e.digest e.decode e.encode e.oracle.network q.now
            (to_transfers e.oracle.network e.oracle.normalize ts page.source_status)).0
  unfolding with_transitions completed
  with_transitions-leads page ts bs r ws h = elim (Option-cases e.database) [
    | inl g ↦ ap leads_of (ap (λ x. x.0) (sym (rw (g, with_transitions) at h)))
    | inr (d, g) ↦
        elim (Bool-cases (
          d.accepts (
            evidence_write e q address page (graph e.oracle address ts page).0
              (to_transfers e.oracle.network e.oracle.normalize ts page.source_status) bs))) [
                | inl a ↦ from_stored-leads d page _ _ _ _ r ws (rw (g, a, with_transitions) at h)
                | inr a ↦ absurd (ground (arith, h, g, a))
              ]
  ]
    where
      leads_of : Reply → List Lead
      leads_of (failed f) = []
      leads_of (answered r) = r.leads

-- Every transfer that a lead of an answered trace cites is one of the page that the provider gave, has a
-- time, and lies as deep below the head of the chain, as the provider reported it, as the threshold of
-- the network says.
pub resolve_graph-ConfirmedId :
    (e : Engine) (q : Request) (value address : Text) (list : Text → ℕ → Text → Option TransferPage)
    (p : TransferPage) (r : GraphResult) (ws : List Write)
    → e.list_transfers ≡ some list
    → e.oracle.normalize value ≡ some address
    → list address (page_limit q.limit) q.cursor ≡ some p
    → resolve_graph e q value ≡ (answered r, ws)
    → All
        (λ (l : Lead).
          All
            (ConfirmedId e.oracle.network p.source_status.latest_chain_block p.transfers)
            l.transfer_ids)
        r.leads
unfolding resolve_graph with_page
resolve_graph-ConfirmedId e q value address list p r ws hl ha hp h =
    let page = record p { source_status = status_of e.oracle.network p } in
    let ts = selected_transfers e q address page in
    let found : with_page e q address (some p) ≡ (answered r, ws) =
      rw (hl, ha, hp, resolve_graph) at h in
    elim (Option-cases (
      resolve_bridge_transitions e.oracle.network e.bridges ts
        (to_transfers e.oracle.network e.oracle.normalize ts page.source_status))) [
          | inl g ↦ absurd (ground (arith, found, g))
          | inr (bs, g) ↦
              let leads =
                with_transitions-leads e q address page ts bs r ws (rw (g, with_page) at found) in
              subst
                (Cites
                  (ConfirmedId e.oracle.network p.source_status.latest_chain_block p.transfers))
                (sym leads)
                (evaluated-Cites e.oracle.network e.oracle.normalize p.transfers p e q.now ts (
                  selected_transfers-All (λ t. Mem t p.transfers) e q address page
                    (All-Mem p.transfers)))
        ]
