-- ===== src/Rules/Catalog.antt =====
-- The rule catalog: apps/backend/internal/rules/catalog.go. The JSON texts are kept as they stand.
use Prim.Native.String.{String}
use open_chain.Prelude.{List, [], ◌∷◌}

-- The texts of the catalog are native strings: nothing here walks through them.
pub record Definition : Type 0 where
  pub id : String
  pub version : String
  pub name : String
  pub parameter_schema : String
  pub default_parameters : String
  pub limitations : String

abbrev pub neutral_limitation : String
neutral_limitation =
    "This deterministic pattern is an investigative lead within the retrieved graph scope and confirmation-backed observations only. It is not an attribution, risk score, conclusion about intent, or complete address history."

abbrev pub fan_in_consolidation : Definition
fan_in_consolidation = record {
  id = "fan-in-consolidation";
  version = "1.0.0";
  name = "Fan-in / consolidation";
  parameter_schema =
      "{\"type\":\"object\",\"properties\":{\"window_seconds\":{\"type\":\"integer\",\"minimum\":1,\"default\":86400},\"min_distinct_counterparties\":{\"type\":\"integer\",\"minimum\":2,\"default\":3},\"include_provisional\":{\"type\":\"boolean\",\"default\":false}},\"additionalProperties\":false}";
  default_parameters =
      "{\"window_seconds\":86400,\"min_distinct_counterparties\":3,\"include_provisional\":false}";
  limitations = neutral_limitation;
}

abbrev pub fan_out_dispersion : Definition
fan_out_dispersion = record {
  id = "fan-out-dispersion";
  version = "1.0.0";
  name = "Fan-out / dispersion";
  parameter_schema =
      "{\"type\":\"object\",\"properties\":{\"window_seconds\":{\"type\":\"integer\",\"minimum\":1,\"default\":86400},\"min_distinct_counterparties\":{\"type\":\"integer\",\"minimum\":2,\"default\":3},\"include_provisional\":{\"type\":\"boolean\",\"default\":false}},\"additionalProperties\":false}";
  default_parameters =
      "{\"window_seconds\":86400,\"min_distinct_counterparties\":3,\"include_provisional\":false}";
  limitations = neutral_limitation;
}

abbrev pub rapid_onward_transfer : Definition
rapid_onward_transfer = record {
  id = "rapid-onward-transfer";
  version = "1.0.0";
  name = "Rapid onward transfer pattern";
  parameter_schema =
      "{\"type\":\"object\",\"properties\":{\"window_seconds\":{\"type\":\"integer\",\"minimum\":1,\"default\":3600},\"include_provisional\":{\"type\":\"boolean\",\"default\":false}},\"additionalProperties\":false}";
  default_parameters = "{\"window_seconds\":3600,\"include_provisional\":false}";
  limitations = neutral_limitation;
}

abbrev pub repeated_equal_amount_dispersion : Definition
repeated_equal_amount_dispersion = record {
  id = "repeated-equal-amount-dispersion";
  version = "1.0.0";
  name = "Repeated equal-amount dispersion pattern";
  parameter_schema =
      "{\"type\":\"object\",\"properties\":{\"window_seconds\":{\"type\":\"integer\",\"minimum\":1,\"default\":86400},\"min_distinct_counterparties\":{\"type\":\"integer\",\"minimum\":2,\"default\":3},\"include_provisional\":{\"type\":\"boolean\",\"default\":false}},\"additionalProperties\":false}";
  default_parameters =
      "{\"window_seconds\":86400,\"min_distinct_counterparties\":3,\"include_provisional\":false}";
  limitations =
      "This deterministic pattern compares equal raw amounts of the same asset within the retrieved graph scope's confirmation-backed observations. It does not determine whether an amount is small, a fiat value, ownership, or intent.";
}

abbrev pub sequential_decreasing_transfer : Definition
sequential_decreasing_transfer = record {
  id = "sequential-decreasing-transfer";
  version = "1.0.0";
  name = "Sequential decreasing-transfer pattern";
  parameter_schema =
      "{\"type\":\"object\",\"properties\":{\"window_seconds\":{\"type\":\"integer\",\"minimum\":1,\"default\":3600},\"min_hops\":{\"type\":\"integer\",\"minimum\":3,\"default\":3},\"include_provisional\":{\"type\":\"boolean\",\"default\":false}},\"additionalProperties\":false}";
  default_parameters = "{\"window_seconds\":3600,\"min_hops\":3,\"include_provisional\":false}";
  limitations = neutral_limitation;
}

abbrev pub brief_intermediary_pass_through : Definition
brief_intermediary_pass_through = record {
  id = "brief-intermediary-pass-through";
  version = "1.0.0";
  name = "Briefly observed intermediary pattern";
  parameter_schema =
      "{\"type\":\"object\",\"properties\":{\"window_seconds\":{\"type\":\"integer\",\"minimum\":1,\"default\":3600},\"include_provisional\":{\"type\":\"boolean\",\"default\":false}},\"additionalProperties\":false}";
  default_parameters = "{\"window_seconds\":3600,\"include_provisional\":false}";
  limitations =
      "This deterministic pattern is limited to the retrieved graph scope's confirmation-backed observations. It identifies a same-amount pass-through, not an address lifetime, ownership, attribution, risk score, or intent.";
}

abbrev pub catalog : List Definition
catalog =
    fan_in_consolidation ∷ fan_out_dispersion ∷ rapid_onward_transfer
    ∷ repeated_equal_amount_dispersion ∷ sequential_decreasing_transfer
    ∷ brief_intermediary_pass_through ∷ []
