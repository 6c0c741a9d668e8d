-- ===== src/Rules/Evaluate/Backed.antt =====
-- What Evaluate of internal/rules/detect.go cites.
use Prim.Native.String.{String}
use mathlib.Core.List.{Mem, mem-cons_self, mem-cons_of_mem}
use open_chain.Prelude.{
  ℕ, ◌≡◌, ◌≢◌, refl, Bool, true, false, Option, List, [], ◌∷◌, Text, if◌then◌else◌, All, All-append,
  All-map, arith, Bool-cases, inl, inr, keep,
}
use open_chain.Prelude.Sort.{sort, All-sort}
use open_chain.Transfers.{Transfer}
use open_chain.Rules.Catalog.{Definition, catalog}
use open_chain.Rules.Leads.{Lead, is_backed, confirmation_backed_transfers}
use open_chain.Rules.Fan.{Parameters}
use open_chain.Rules.Evaluate.{by_id, detect, detect_all, evaluate}
use open_chain.Rules.Evaluate.Cites.{
  From, Cites, sort_transfers-From, fan-Cites, repeated_equal_amount-Cites,
}
use open_chain.Rules.Evaluate.Follows.{
  rapid_onward-Cites, brief_intermediary-Cites, sequential_decreasing-Cites,
}

-- The id of one of the transfers that is confirmed and has a time.
abbrev pub BackedId : List Transfer → Text → Type 0
BackedId ts i =
    (t : Transfer) × Mem t ts × (t.id ≡ i) × (t.provisional ≡ false) × (t.block_timestamp ≢ 0)

All-Mem : (ts : List Transfer) → All (λ t. Mem t ts) ts
All-Mem [] = tt
All-Mem (t ∷ ts) = (
  mem-cons_self,
  All-map (λ s. Mem s ts) (λ s. Mem s (t ∷ ts)) (λ s m. mem-cons_of_mem t m) ts (All-Mem ts),
)

kept-From :
    (ts all : List Transfer) → All (λ t. Mem t all) ts → From (BackedId all) (keep is_backed ts)
unfolding is_backed
kept-From [] all h = tt
kept-From (t ∷ ts) all (m, h) = elim (Bool-cases (is_backed t)) [
  | inr e ↦ rw (e, keep) (kept-From ts all h)
  | inl e ↦
      rw (e, keep) ((t, m, refl, ground (arith, e), λ z. ground (arith, e, z)), kept-From ts all h)
]

confirmation_backed_transfers-From :
    (ts : List Transfer) → From (BackedId ts) (confirmation_backed_transfers ts)
unfolding confirmation_backed_transfers
confirmation_backed_transfers-From ts =
    sort_transfers-From (BackedId ts) (keep is_backed ts) (kept-From ts ts (All-Mem ts))

module _ (digest : Text → Text) (decode : String → Option Parameters) where
  module _ {κ} (P : Text → Type κ) where
    if-Cites :
        (b : Bool) (ls ms : List Lead) → Cites P ls → Cites P ms → Cites P (if b then ls else ms)
    if-Cites true ls ms l m = l
    if-Cites false ls ms l m = m

    detect-Cites :
        (d : Definition) (ts : List Transfer) → From P ts → Cites P (detect digest decode d ts)
    unfolding detect
    detect-Cites d ts h =
        search
          (
            if-Cites,
            fan-Cites P digest decode d ts,
            rapid_onward-Cites P digest decode d ts,
            repeated_equal_amount-Cites P digest decode d ts,
            sequential_decreasing-Cites P digest decode d ts,
            brief_intermediary-Cites P digest decode d ts,
          )
          depth 9

    detect_all-Cites :
        (ds : List Definition) (ts : List Transfer)
        → From P ts
        → Cites P (detect_all digest decode ds ts)
    unfolding detect_all
    detect_all-Cites [] ts h = tt
    detect_all-Cites (d ∷ ds) ts h =
        All-append (λ (l : Lead). All P l.transfer_ids) (sort by_id (detect digest decode d ts))
          (detect_all digest decode ds ts)
          (All-sort by_id (λ (l : Lead). All P l.transfer_ids) (detect digest decode d ts)
            (detect-Cites d ts h))
          (detect_all-Cites ds ts h)

  -- What holds of the ids of the backed transfers holds of all that an evaluation cites.
  pub evaluate-Cites {κ} :
      (P : Text → Type κ) (encode : List Lead → Text) (network : Text) (completed_at : ℕ)
      (ts : List Transfer)
      → From P (confirmation_backed_transfers ts)
      → Cites P (evaluate digest decode encode network completed_at ts).0
  unfolding evaluate
  evaluate-Cites P encode network completed_at ts h =
      All-sort by_id (λ (l : Lead). All P l.transfer_ids)
        (detect_all digest decode catalog (confirmation_backed_transfers ts))
        (detect_all-Cites P catalog (confirmation_backed_transfers ts) h)

  -- Every transfer that a lead of an evaluation cites is one of the given transfers, is not provisional
  -- and has a time, whatever the digests and the rules' parameters are.
  pub evaluate_cites_backed :
      (encode : List Lead → Text) (network : Text) (completed_at : ℕ) (ts : List Transfer)
      → All
          (λ (l : Lead). All (BackedId ts) l.transfer_ids)
          (evaluate digest decode encode network completed_at ts).0
  evaluate_cites_backed encode network completed_at ts =
      evaluate-Cites (BackedId ts) encode network completed_at ts
        (confirmation_backed_transfers-From ts)
