-- ===== src/Rules/Evaluate/Cites.antt =====
-- What holds of the ids of all transfers holds of the ids that the leads of internal/rules/detect.go cite.
use Prim.Native.String.{String}
use open_chain.Prelude.{
  ℕ, ◌≡◌, Bool, true, false, Option, some, List, [], ◌∷◌, ◌++◌, map, Text, same, if◌then◌else◌, All,
  All-append, Bool-cases, Option-cases, inl, inr, before,
}
use mathlib.Core.Path.{subst}
use open_chain.Prelude.Sort.{All-sort}
use open_chain.Transfers.{Transfer}
use open_chain.Rules.Catalog.{Definition}
use open_chain.Rules.Window.{first_distinct_window}
use open_chain.Rules.Window.Decides.{first_distinct_window_sound}
use open_chain.Rules.Leads.{
  Lead, Groups, add_to, earlier, sort_transfers, transfer_ids, lead, parsed_amount,
}
use open_chain.Rules.Fan.{
  Parameters, fan_groups, fan_group, fan_lead, equal_lead, fan_leads, fan, fan_parameters,
  equal_groups, equal_group, equal_leads, repeated_equal_amount,
}

module _ {κ} (P : Text → Type κ) where
  -- The ids of transfers, of the transfers in groups, and those that leads cite.
  abbrev pub From : List Transfer → Type κ
  From = All (λ (t : Transfer). P t.id)

  abbrev pub InGroups : Groups → Type κ
  InGroups = All (λ (g : Text × List Transfer). From g.1)

  abbrev pub Cites : List Lead → Type κ
  Cites = All (λ (l : Lead). All P l.transfer_ids)

  pub sort_transfers-From : (ts : List Transfer) → From ts → From (sort_transfers ts)
  unfolding sort_transfers
  sort_transfers-From ts h = All-sort earlier (λ (t : Transfer). P t.id) ts h

  map-From : (ts : List Transfer) → From ts → All P (map (λ (t : Transfer). t.id) ts)
  map-From [] h = tt
  map-From (t ∷ ts) (h, hs) = (h, map-From ts hs)

  pub transfer_ids-From : (ts : List Transfer) → From ts → All P (transfer_ids ts)
  unfolding transfer_ids
  transfer_ids-From ts h = All-sort before P (map (λ (t : Transfer). t.id) ts) (map-From ts h)

  pub add_to-InGroups :
      (k : Text) (t : Transfer) (gs : Groups) → P t.id → InGroups gs → InGroups (add_to k t gs)
  unfolding add_to
  add_to-InGroups k t [] p h = ((p, tt), tt)
  add_to-InGroups k t ((j, ts) ∷ gs) p (h, hs) = elim (Bool-cases (same k j)) [
    | inl e ↦ rw e (All-append (λ (t : Transfer). P t.id) ts (t ∷ []) h (p, tt), hs)
    | inr e ↦ rw e (h, add_to-InGroups k t gs p hs)
  ]

  pub if-InGroups :
      (b : Bool) (gs hs : Groups) → InGroups gs → InGroups hs → InGroups (if b then gs else hs)
  if-InGroups true gs hs g h = g
  if-InGroups false gs hs g h = h

  -- The middle of a slice.
  All-middle : (xs ys zs : List Transfer) → From (xs ++ (ys ++ zs)) → From ys
  All-middle [] [] zs h = tt
  All-middle [] (y ∷ ys) zs (h, hs) = (h, All-middle [] ys zs hs)
  All-middle (x ∷ xs) ys zs (h, hs) = All-middle xs ys zs hs

  pub window-From :
      (inbound : Bool) (minimum duration : ℕ) (group w : List Transfer) (n : ℕ)
      → first_distinct_window inbound minimum duration group ≡ some (w, n)
      → From group
      → From w
  window-From inbound minimum duration group w n e h =
      let (before, after, x, split, head, times, count, enough) =
        first_distinct_window_sound inbound minimum duration group w n e in
      All-middle before w after (subst From split h)

  module _ (digest : Text → Text) (d : Definition) where
    pub lead-Cites :
        (subject : Text) (title : String) (rationale : Text) (ids : List Text)
        → All P ids
        → All P (lead digest d subject title rationale ids).transfer_ids
    unfolding lead
    lead-Cites subject title rationale ids h = All-sort before P ids h

  module _ (digest : Text → Text) (d : Definition) (window minimum : ℕ) where
    fan_group-Cites :
        (inbound : Bool) (group : List Transfer)
        → From group
        → Cites (fan_group digest d inbound window minimum group)
    unfolding fan_group fan_lead
    fan_group-Cites inbound group h =
        elim (Option-cases (first_distinct_window inbound minimum window (sort_transfers group))) [
          | inl e ↦ rw (e, fan_group) tt
          | inr (([], n), e) ↦ rw (e, fan_group) tt
          | inr ((m ∷ ms, n), e) ↦
              rw (e, fan_group)
                (
                  lead-Cites digest d _ _ _ (transfer_ids (m ∷ ms)) (
                      transfer_ids-From (m ∷ ms) (
                        window-From inbound minimum window (sort_transfers group) (m ∷ ms) n e
                          (sort_transfers-From group h))),
                  tt,
                )
        ]

    fan_leads-Cites :
        (inbound : Bool) (gs : Groups)
        → InGroups gs
        → Cites (fan_leads digest d inbound window minimum gs)
    unfolding fan_leads
    fan_leads-Cites inbound [] h = tt
    fan_leads-Cites inbound ((k, group) ∷ gs) (h, hs) =
        All-append (λ (l : Lead). All P l.transfer_ids)
          (fan_group digest d inbound window minimum group)
          (fan_leads digest d inbound window minimum gs) (fan_group-Cites inbound group h)
          (fan_leads-Cites inbound gs hs)

    equal_group-Cites :
        (group : List Transfer) → From group → Cites (equal_group digest d window minimum group)
    unfolding equal_group equal_lead
    equal_group-Cites group h =
        elim (Option-cases (first_distinct_window false minimum window (sort_transfers group))) [
          | inl e ↦ rw (e, equal_group) tt
          | inr (([], n), e) ↦ rw (e, equal_group) tt
          | inr ((m ∷ ms, n), e) ↦
              rw (e, equal_group)
                (
                  lead-Cites digest d _ _ _ (transfer_ids (m ∷ ms)) (
                      transfer_ids-From (m ∷ ms) (
                        window-From false minimum window (sort_transfers group) (m ∷ ms) n e
                          (sort_transfers-From group h))),
                  tt,
                )
        ]

    equal_leads-Cites : (gs : Groups) → InGroups gs → Cites (equal_leads digest d window minimum gs)
    unfolding equal_leads
    equal_leads-Cites [] h = tt
    equal_leads-Cites ((k, group) ∷ gs) (h, hs) =
        All-append (λ (l : Lead). All P l.transfer_ids) (equal_group digest d window minimum group)
          (equal_leads digest d window minimum gs) (equal_group-Cites group h)
          (equal_leads-Cites gs hs)

  fan_groups-InGroups :
      (inbound : Bool) (ts : List Transfer) (gs : Groups)
      → InGroups gs
      → From ts
      → InGroups (fan_groups inbound gs ts)
  unfolding fan_groups
  fan_groups-InGroups inbound [] gs hg h = hg
  fan_groups-InGroups inbound (t ∷ ts) gs hg (h, hs) =
      fan_groups-InGroups inbound ts _ (if-InGroups _ gs _ hg (add_to-InGroups _ t gs h hg)) hs

  equal_groups-InGroups :
      (ts : List Transfer) (gs : Groups) → InGroups gs → From ts → InGroups (equal_groups gs ts)
  unfolding equal_groups
  equal_groups-InGroups [] gs hg h = hg
  equal_groups-InGroups (t ∷ ts) gs hg (h, hs) = elim (Option-cases (parsed_amount t)) [
    | inl e ↦ rw e (equal_groups-InGroups ts gs hg hs)
    | inr (a, e) ↦
        rw e (equal_groups-InGroups ts _ (if-InGroups _ gs _ hg (add_to-InGroups _ t gs h hg)) hs)
  ]

  module _ (digest : Text → Text) (decode : String → Option Parameters) (d : Definition) where
    pub fan-Cites :
        (ts : List Transfer) (inbound : Bool) → From ts → Cites (fan digest decode d ts inbound)
    unfolding fan
    fan-Cites ts inbound h = elim (Option-cases (fan_parameters decode d)) [
      | inl e ↦ rw (e, fan) tt
      | inr ((w, m), e) ↦
          rw (e, fan)
            (fan_leads-Cites digest d w m inbound (fan_groups inbound [] ts)
              (fan_groups-InGroups inbound ts [] tt h))
    ]

    pub repeated_equal_amount-Cites :
        (ts : List Transfer) → From ts → Cites (repeated_equal_amount digest decode d ts)
    unfolding repeated_equal_amount
    repeated_equal_amount-Cites ts h = elim (Option-cases (fan_parameters decode d)) [
      | inl e ↦ rw (e, repeated_equal_amount) tt
      | inr ((w, m), e) ↦
          rw (e, repeated_equal_amount)
            (equal_leads-Cites digest d w m (equal_groups [] ts) (equal_groups-InGroups ts [] tt h))
    ]
