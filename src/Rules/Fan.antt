-- ===== src/Rules/Fan.antt =====
-- The parameters of the rules, and the detectors of fans and of repeated equal amounts, of
-- internal/rules/detect.go. json.Unmarshal into the parameters is the argument `decode`; a field that the
-- text does not hold is 0.
use Prim.Native.String.{String}
use open_chain.Prelude.{
  ℕ, ◌*◌, Bool, false, ◌||◌, Option, none, some, List, [], ◌∷◌, ◌++◌, Text, codes, same, ltb,
  if◌then◌else◌, is_empty, length,
}
use open_chain.Prelude.Int.{pos, negsuc, wrap_i64}
use open_chain.Prelude.Decimal.{itoa}
use open_chain.Transfers.{Transfer}
use open_chain.Rules.Catalog.{Definition}
use open_chain.Rules.Window.{first_distinct_window}
use open_chain.Rules.Leads.{
  Lead, Groups, asset_key, parsed_amount, sort_transfers, transfer_ids, add_to, hours, lead,
}

abbrev pub nul : Text
nul = 0 ∷ []

pub record Parameters : Type 0 where
  pub window_seconds : ℕ
  pub min_distinct_counterparties : ℕ
  pub min_hops : ℕ

-- time.Duration(s) * time.Second, where it is positive.
unfoldable pub seconds : ℕ → Option ℕ
seconds s = elim (wrap_i64 (s * 1_000_000_000)) [
  | negsuc n ↦ none
  | pos n ↦ if ltb 0 n then some n else none
]

module _ (decode : String → Option Parameters) where
  -- fanParameters with the test behind it: the window and the minimum, where the rule may run.
  unfoldable pub fan_parameters : Definition → Option (ℕ × ℕ)
  fan_parameters d = elim (decode d.default_parameters) [
    | none ↦ none
    | some p ↦
        if ltb p.window_seconds 1 || ltb p.min_distinct_counterparties 2
        then none
        else elim (seconds p.window_seconds) [
          | none ↦ none
          | some w ↦ some (w, p.min_distinct_counterparties)
        ]
  ]

  -- rapidParameters with the test behind it.
  unfoldable pub rapid_parameters : Definition → Option ℕ
  rapid_parameters d = elim (decode d.default_parameters) [
    | none ↦ none
    | some p ↦ if ltb p.window_seconds 1 then none else seconds p.window_seconds
  ]

  -- chainParameters with the test behind it.
  unfoldable pub chain_parameters : Definition → Option (ℕ × ℕ)
  chain_parameters d = elim (decode d.default_parameters) [
    | none ↦ none
    | some p ↦
        if ltb p.window_seconds 1 || ltb p.min_hops 3
        then none
        else elim (seconds p.window_seconds) [ none ↦ none | some w ↦ some (w, p.min_hops) ]
  ]

-- The side that the rule is about, and the other one.
abbrev pub subject_of : Bool → Transfer → Text
subject_of inbound t = if inbound then t.to_address else t.from_address

abbrev pub other_of : Bool → Transfer → Text
other_of inbound t = if inbound then t.from_address else t.to_address

-- The first loop of fan.
unfoldable pub fan_groups : Bool → Groups → List Transfer → Groups
fan_groups inbound gs [] = gs
fan_groups inbound gs (t ∷ ts) =
    let s = subject_of inbound t in
    let c = other_of inbound t in
    fan_groups inbound
      (if is_empty s || (is_empty c || same s c)
        then gs
        else add_to (s ++ (nul ++ asset_key t)) t gs)
      ts

module _ (digest : Text → Text) (d : Definition) (inbound : Bool) (window minimum : ℕ) where
  unfoldable pub fan_text : ℕ → ℕ → Text
  fan_text found distinct =
      codes "Observed "
      ++ (itoa found
          ++ (codes (if inbound then " inbound" else " outbound")
              ++ (codes " transfers involving "
                  ++ (itoa distinct
                      ++ (codes " distinct counterparties within "
                          ++ (hours window ++ codes " hours."))))))

  unfoldable pub fan_lead : List Transfer → ℕ → List Lead
  unfolding fan_text
  fan_lead [] distinct = []
  fan_lead (m ∷ ms) distinct =
      let ids = transfer_ids (m ∷ ms) in
      lead digest d (subject_of inbound m)
        (if inbound then "Fan-in / consolidation lead" else "Fan-out / dispersion lead")
        (fan_text (length ids) distinct) ids
      ∷ []

  -- The body of the loop over the groups.
  unfoldable pub fan_group : List Transfer → List Lead
  unfolding fan_lead
  fan_group group = elim (first_distinct_window inbound minimum window (sort_transfers group)) [
    | none ↦ []
    | some (matches, distinct) ↦ fan_lead matches distinct
  ]

  unfoldable pub fan_leads : Groups → List Lead
  unfolding fan_group
  fan_leads [] = []
  fan_leads ((k, group) ∷ gs) = fan_group group ++ fan_leads gs

module _ (digest : Text → Text) (decode : String → Option Parameters) where
  -- fan; fanIn and fanOut are its two cases.
  unfoldable pub fan : Definition → List Transfer → Bool → List Lead
  fan d ts inbound = elim (fan_parameters decode d) [
    | none ↦ []
    | some (window, minimum) ↦ fan_leads digest d inbound window minimum (fan_groups inbound [] ts)
  ]

-- The first loop of repeatedEqualAmount; the key ends in the amount in its normal form.
unfoldable pub equal_groups : Groups → List Transfer → Groups
equal_groups gs [] = gs
equal_groups gs (t ∷ ts) =
    equal_groups
      (elim (parsed_amount t) [
        | none ↦ gs
        | some amount ↦
            if is_empty t.from_address
              || (is_empty t.to_address || same t.from_address t.to_address)
            then gs
            else add_to (t.from_address ++ (nul ++ (asset_key t ++ (nul ++ itoa amount)))) t gs
      ])
      ts

module _ (digest : Text → Text) (d : Definition) (window minimum : ℕ) where
  unfoldable pub equal_lead : List Transfer → ℕ → List Lead
  equal_lead [] distinct = []
  equal_lead (m ∷ ms) distinct =
      lead digest d m.from_address "Repeated equal-amount dispersion pattern"
        (codes "Observed "
          ++ (itoa (length (m ∷ ms))
              ++ (codes " outbound transfers of the same raw amount and asset to "
                  ++ (itoa distinct
                      ++ (codes " distinct counterparties within "
                          ++ (hours window ++ codes " hours."))))))
        (transfer_ids (m ∷ ms))
      ∷ []

  unfoldable pub equal_group : List Transfer → List Lead
  unfolding equal_lead
  equal_group group = elim (first_distinct_window false minimum window (sort_transfers group)) [
    | none ↦ []
    | some (matches, distinct) ↦ equal_lead matches distinct
  ]

  unfoldable pub equal_leads : Groups → List Lead
  unfolding equal_group
  equal_leads [] = []
  equal_leads ((k, group) ∷ gs) = equal_group group ++ equal_leads gs

module _ (digest : Text → Text) (decode : String → Option Parameters) where
  -- repeatedEqualAmount
  unfoldable pub repeated_equal_amount : Definition → List Transfer → List Lead
  repeated_equal_amount d ts = elim (fan_parameters decode d) [
    | none ↦ []
    | some (window, minimum) ↦ equal_leads digest d window minimum (equal_groups [] ts)
  ]
