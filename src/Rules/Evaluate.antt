-- ===== src/Rules/Evaluate.antt =====
-- Evaluate of internal/rules/detect.go: the whole catalog over one page of transfers. json.Marshal of
-- the leads is the argument `encode`; it does not fail on them.
pub mod Backed
pub mod Cites
pub mod Follows
use Prim.Native.String.{String}
use text.Mathlib.Text.{◌==◌}
use open_chain.Prelude.{
  ℕ, Bool, true, false, Option, none, some, List, [], ◌∷◌, ◌++◌, Text, codes, before, if◌then◌else◌,
}
use open_chain.Prelude.Sort.{sort}
use open_chain.Transfers.{Transfer}
use open_chain.Rules.Catalog.{Definition, catalog}
use open_chain.Rules.Leads.{Lead, confirmation_backed_transfers, transfer_ids}
use open_chain.Rules.Fan.{Parameters, fan, repeated_equal_amount}
use open_chain.Rules.Onward.{rapid_onward, brief_intermediary}
use open_chain.Rules.Chain.{sequential_decreasing}

-- RuleRun of internal/db/rules.go.
pub record RuleRun : Type 0 where
  pub network : Text
  pub rule_id : Text
  pub rule_version : Text
  pub parameters : Text
  pub input_transfer_ids : List Text
  pub result : Text
  pub started_at : ℕ
  pub completed_at : ℕ

abbrev pub by_id : Lead → Lead → Bool
by_id a b = before a.id b.id

module _ (digest : Text → Text) (decode : String → Option Parameters) where
  -- The switch on the rule's id.
  unfoldable pub detect : Definition → List Transfer → List Lead
  detect d ts =
      if d.id == "fan-in-consolidation"
      then fan digest decode d ts true
      else if d.id == "fan-out-dispersion"
      then fan digest decode d ts false
      else if d.id == "rapid-onward-transfer"
      then rapid_onward digest decode d ts
      else if d.id == "repeated-equal-amount-dispersion"
      then repeated_equal_amount digest decode d ts
      else if d.id == "sequential-decreasing-transfer"
      then sequential_decreasing digest decode d ts
      else if d.id == "brief-intermediary-pass-through"
      then brief_intermediary digest decode d ts
      else []

  -- The leads of the rules of a catalog, each rule's sorted by id.
  unfoldable pub detect_all : List Definition → List Transfer → List Lead
  detect_all [] ts = []
  detect_all (d ∷ ds) ts = sort by_id (detect d ts) ++ detect_all ds ts

  module _ (encode : List Lead → Text) (network : Text) (completed_at : ℕ) where
    unfoldable pub run_of : Definition → List Transfer → RuleRun
    run_of d ts = record {
      network = network;
      rule_id = codes d.id;
      rule_version = codes d.version;
      parameters = codes d.default_parameters;
      input_transfer_ids = transfer_ids ts;
      result = encode (sort by_id (detect d ts));
      started_at = completed_at;
      completed_at = completed_at;
    }

    unfoldable pub runs_of : List Definition → List Transfer → List RuleRun
    unfolding run_of
    runs_of [] ts = []
    runs_of (d ∷ ds) ts = run_of d ts ∷ runs_of ds ts

    -- Evaluate
    unfoldable pub evaluate : List Transfer → List Lead × List RuleRun
    unfolding runs_of
    evaluate ts =
        let backed = confirmation_backed_transfers ts in
        (sort by_id (detect_all catalog backed), runs_of catalog backed)
