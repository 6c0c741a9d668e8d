-- ===== src/Graph/Coverage/Adds.antt =====
-- The counts of a coverage add up, and its times span those of what is stored.
use open_chain.Prelude.{
  ℕ, ◌+◌, ◌^◌, ◌≤◌, ◌<◌, ◌≡◌, refl, ◌∙◌, not, List, [], ◌∷◌, map, Text, ◌==◌, if◌then◌else◌, length,
  tally, arith, Bool-cases, inl, inr,
}
use open_chain.Prelude.Sets.{contains}
use open_chain.Transfers.{Transfer}
use open_chain.Source.{TransferPage}
use open_chain.Graph.Nodes.{next_u32, unix}
use open_chain.Graph.Coverage.{
  TraceCoverage, count_inputs, note_time, note_history, count_stored, blank_coverage,
  trace_coverage,
}

-- The counts of the first loop.
count_inputs_lem :
    (ts : List Transfer) (c : TraceCoverage)
    → c.provisional_transfer_count + length ts < 2 ^ 32
    → c.confirmation_backed_transfer_count + length ts < 2 ^ 32
    → ((count_inputs c ts).provisional_transfer_count
        ≡ c.provisional_transfer_count + tally (λ t. t.provisional) ts)
      × ((count_inputs c ts).confirmation_backed_transfer_count
          ≡ c.confirmation_backed_transfer_count + tally (λ t. not t.provisional) ts)
unfolding count_inputs next_u32
count_inputs_lem [] c h k = (omega arith, omega arith)
count_inputs_lem (t ∷ ts) c h k = elim (Bool-cases t.provisional) [
  | inl e ↦
      let (a, b) =
        count_inputs_lem ts
          (record c { provisional_transfer_count = next_u32 c.provisional_transfer_count })
          (omega arith) (omega arith) in
      rw (e, count_inputs, tally) (omega (arith, a), omega (arith, b))
  | inr e ↦
      let (a, b) =
        count_inputs_lem ts
          (record c {
            confirmation_backed_transfer_count = next_u32 c.confirmation_backed_transfer_count;
          })
          (omega arith) (omega arith) in
      rw (e, count_inputs, tally) (omega (arith, a), omega (arith, b))
]

-- One round of the second loop.
abbrev stored_round : List Text → Transfer → TraceCoverage → TraceCoverage
stored_round ids t c =
    if t.retrieved_at == 0
    then note_history ids t c
    else note_time (unix t.retrieved_at) (note_history ids t c)

stored_round_lem :
    (ids : List Text) (t : Transfer) (c : TraceCoverage)
    → ((stored_round ids t c).provisional_transfer_count ≡ c.provisional_transfer_count)
      × ((stored_round ids t c).confirmation_backed_transfer_count
          ≡ c.confirmation_backed_transfer_count)
      × ((stored_round ids t c).rule_input_transfer_count ≡ c.rule_input_transfer_count)
      × ((stored_round ids t c).stored_graph_transfer_count ≡ c.stored_graph_transfer_count)
      × ((stored_round ids t c).stored_history_transfer_count ≡ (
          if contains t.id ids
          then c.stored_history_transfer_count
          else next_u32 c.stored_history_transfer_count))
unfolding note_time note_history
stored_round_lem ids t c = elim (Bool-cases (t.retrieved_at == 0)) [
  | inl e ↦ elim (Bool-cases (contains t.id ids)) [
    | inl k ↦ rw (e, k) (refl, refl, refl, refl, refl)
    | inr k ↦ rw (e, k) (refl, refl, refl, refl, refl)
  ]
  | inr e ↦ elim (Bool-cases (contains t.id ids)) [
    | inl k ↦ rw (e, k) (refl, refl, refl, refl, refl)
    | inr k ↦ rw (e, k) (refl, refl, refl, refl, refl)
  ]
]

-- How many transfers have an id that is not in a list.
abbrev pub outside : List Text → List Transfer → ℕ
outside ids ts = tally (λ t. not (contains t.id ids)) ts

count_stored_lem :
    (ids : List Text) (ts : List Transfer) (c : TraceCoverage)
    → c.stored_history_transfer_count + length ts < 2 ^ 32
    → ((count_stored ids c ts).provisional_transfer_count ≡ c.provisional_transfer_count)
      × ((count_stored ids c ts).confirmation_backed_transfer_count
          ≡ c.confirmation_backed_transfer_count)
      × ((count_stored ids c ts).rule_input_transfer_count ≡ c.rule_input_transfer_count)
      × ((count_stored ids c ts).stored_graph_transfer_count ≡ c.stored_graph_transfer_count)
      × ((count_stored ids c ts).stored_history_transfer_count
          ≡ c.stored_history_transfer_count + outside ids ts)
unfolding count_stored
count_stored_lem ids [] c h = (refl, refl, refl, refl, omega arith)
count_stored_lem ids (t ∷ ts) c h =
    let (p, b, r, g, s) = stored_round_lem ids t c in
    let s' : (stored_round ids t c).stored_history_transfer_count
        ≡ c.stored_history_transfer_count + (if contains t.id ids then 0 else 1) =
      unfold next_u32 in ground (arith, s) in
    let (p', b', r', g', s'') =
      count_stored_lem ids ts (stored_round ids t c) (ground (arith, s')) in
    (p' ∙ p, b' ∙ b, r' ∙ r, g' ∙ g, ground (arith, s', s''))

count_inputs_sizes :
    (ts : List Transfer) (c : TraceCoverage)
    → ((count_inputs c ts).rule_input_transfer_count ≡ c.rule_input_transfer_count)
      × ((count_inputs c ts).stored_graph_transfer_count ≡ c.stored_graph_transfer_count)
      × ((count_inputs c ts).stored_history_transfer_count ≡ c.stored_history_transfer_count)
unfolding count_inputs
count_inputs_sizes [] c = (refl, refl, refl)
count_inputs_sizes (t ∷ ts) c = elim (Bool-cases t.provisional) [
  | inl e ↦ rw (e, count_inputs) (count_inputs_sizes ts _)
  | inr e ↦ rw (e, count_inputs) (count_inputs_sizes ts _)
]

tally-not :
    (ts : List Transfer)
    → tally (λ t. t.provisional) ts + tally (λ t. not t.provisional) ts ≡ length ts
tally-not [] = omega arith
tally-not (t ∷ ts) = ground (arith, tally-not ts)

outside-le : (ids : List Text) (ts : List Transfer) → outside ids ts ≤ length ts
outside-le ids [] = omega arith
outside-le ids (t ∷ ts) = ground (arith, outside-le ids ts)

-- With fewer than 2 ^ 32 transfers each, the provisional and the confirmed inputs of a coverage are as
-- many as its inputs, its history counts exactly the stored transfers that are no inputs, and these are
-- no more than the stored ones.
pub trace_coverage_adds :
    (limit : ℕ) (cursor : Text) (page : TransferPage) (inputs stored : List Transfer)
    → length inputs < 2 ^ 32
    → length stored < 2 ^ 32
    → ((trace_coverage limit cursor page inputs stored).provisional_transfer_count
          + (trace_coverage limit cursor page inputs stored).confirmation_backed_transfer_count
        ≡ (trace_coverage limit cursor page inputs stored).rule_input_transfer_count)
      × ((trace_coverage limit cursor page inputs stored).stored_history_transfer_count
          ≡ outside (map (λ (t : Transfer). t.id) inputs) stored)
      × ((trace_coverage limit cursor page inputs stored).stored_history_transfer_count
          ≤ (trace_coverage limit cursor page inputs stored).stored_graph_transfer_count)
unfolding trace_coverage
trace_coverage_adds limit cursor page inputs stored hi hs =
    let ids = map (λ (t : Transfer). t.id) inputs in
    let c = blank_coverage limit cursor page inputs stored in
    let (a, b) =
      count_inputs_lem inputs c (unfold blank_coverage in omega arith)
        (unfold blank_coverage in omega arith) in
    let (r, g, s) = count_inputs_sizes inputs c in
    let (p', b', r', g', s') =
      count_stored_lem ids stored (count_inputs c inputs)
        (unfold blank_coverage in omega (arith, s)) in
    (
      unfold blank_coverage in omega (arith, a, b, r, p', b', r', tally-not inputs),
      unfold blank_coverage in omega (arith, s, s'),
      unfold blank_coverage in omega (arith, s, s', g, g', outside-le ids stored),
    )
