-- ===== src/Graph/Coverage.antt =====
-- What a trace says of its scope: TraceCoverage and traceCoverage of internal/tracing/graph.go.
pub mod Adds
use open_chain.Prelude.{
  ℕ, ◌+◌, ◌%◌, ◌^◌, Bool, true, false, ◌&&◌, ◌||◌, List, [], ◌∷◌, map, Text, codes, ◌==◌,
  if◌then◌else◌, length,
}
use open_chain.Prelude.Int.{ℤ, pos, ltb_ℤ, leb_ℤ}
use open_chain.Prelude.Sets.{contains}
use open_chain.Transfers.{Transfer}
use open_chain.Source.{SourceStatus, TransferPage}
use open_chain.Graph.Nodes.{next_u32, unix}

pub record TraceCoverage : Type 0 where
  pub requested_page_size : ℕ
  pub observed_transfer_count : ℕ
  pub rule_input_transfer_count : ℕ
  pub confirmation_backed_transfer_count : ℕ
  pub provisional_transfer_count : ℕ
  pub stored_graph_transfer_count : ℕ
  pub stored_history_transfer_count : ℕ
  pub cursor : Text
  pub rule_input_scope : Text
  pub fresh_retrieved_at : ℤ
  pub stored_oldest_retrieved_at : ℤ
  pub stored_newest_retrieved_at : ℤ
  pub has_more : Bool
  pub provider_complete : Bool
  pub limitation : Text

abbrev pub retrieved_scope_limitation : Text
retrieved_scope_limitation =
    codes
      "This graph and its findings are limited to the retrieved provider page after the selected direction and counterparty scope. An observation is confirmation-backed only when OpenChain obtained a current chain height and the network confirmation threshold was met; this is not an evidentiary finality claim."

-- The first loop.
unfoldable pub count_inputs : TraceCoverage → List Transfer → TraceCoverage
count_inputs c [] = c
count_inputs c (t ∷ ts) =
    count_inputs
      (if t.provisional
        then record c { provisional_transfer_count = next_u32 c.provisional_transfer_count }
        else record c {
          confirmation_backed_transfer_count = next_u32 c.confirmation_backed_transfer_count;
        })
      ts

unfoldable pub note_time : ℤ → TraceCoverage → TraceCoverage
note_time at c = record c {
  stored_oldest_retrieved_at =
      if (leb_ℤ c.stored_oldest_retrieved_at (pos 0) && leb_ℤ (pos 0) c.stored_oldest_retrieved_at)
        || ltb_ℤ at c.stored_oldest_retrieved_at
      then at
      else c.stored_oldest_retrieved_at;
  stored_newest_retrieved_at =
      if ltb_ℤ c.stored_newest_retrieved_at at then at else c.stored_newest_retrieved_at;
}

unfoldable pub note_history : List Text → Transfer → TraceCoverage → TraceCoverage
note_history ids t c =
    if contains t.id ids
    then c
    else record c { stored_history_transfer_count = next_u32 c.stored_history_transfer_count }

-- The second loop.
unfoldable pub count_stored : List Text → TraceCoverage → List Transfer → TraceCoverage
count_stored ids c [] = c
count_stored ids c (t ∷ ts) =
    let c' = note_history ids t c in
    count_stored ids (if t.retrieved_at == 0 then c' else note_time (unix t.retrieved_at) c') ts

-- The coverage before the loops; a length is converted to uint32.
unfoldable pub blank_coverage :
    ℕ → Text → TransferPage → List Transfer → List Transfer → TraceCoverage
blank_coverage limit cursor page inputs stored = record {
  requested_page_size = limit;
  observed_transfer_count = length page.transfers % 2 ^ 32;
  rule_input_transfer_count = length inputs % 2 ^ 32;
  confirmation_backed_transfer_count = 0;
  provisional_transfer_count = 0;
  stored_graph_transfer_count = length stored % 2 ^ 32;
  stored_history_transfer_count = 0;
  cursor = cursor;
  rule_input_scope =
      codes
        "Deterministic rules evaluate only selected transfers from this fresh provider page; durable AGE history is excluded.";
  fresh_retrieved_at = unix page.source_status.retrieved_at;
  stored_oldest_retrieved_at = pos 0;
  stored_newest_retrieved_at = pos 0;
  has_more = page.has_more;
  provider_complete = page.source_status.is_complete;
  limitation = retrieved_scope_limitation;
}

-- traceCoverage
unfoldable pub trace_coverage :
    ℕ → Text → TransferPage → List Transfer → List Transfer → TraceCoverage
unfolding count_inputs count_stored blank_coverage
trace_coverage limit cursor page inputs stored =
    count_stored (map (λ (t : Transfer). t.id) inputs)
      (count_inputs (blank_coverage limit cursor page inputs stored) inputs) stored
