-- ===== src/Rules/Chain/Links.antt =====
-- What the chains of sequentialDecreasing are.
use open_chain.Prelude.{
  ℕ, ◌-◌, ◌≤◌, ◌<◌, ◌≡◌, ◌≢◌, refl, Bool, true, false, not, ◌&&◌, Option, none, some, List, [], ◌∷◌,
  Text, same, same_iff, All, All-append, arith, Bool-cases, Option-cases, inl, inr,
}
use open_chain.Transfers.{Transfer}
use open_chain.Rules.Leads.{asset_key, parsed_amount}
use open_chain.Rules.Chain.{
  falls, may_start, goes_on, is_second, is_third, first_third, chains_of, chains,
}

-- One hop: the money of `last` goes on, less of it, within the window.
pub record Hop (window : ℕ) (last next : Transfer) : Type 0 where
  pub linked : next.from_address ≡ last.to_address
  pub in_order : last.block_timestamp ≤ next.block_timestamp
  pub in_time : next.block_timestamp - last.block_timestamp ≤ window
  pub amount : ℕ
  pub less : ℕ
  pub amount_read : parsed_amount last ≡ some amount
  pub less_read : parsed_amount next ≡ some less
  pub decreasing : less < amount

and_true : (a b : Bool) → a && b ≡ true → (a ≡ true) × (b ≡ true)
and_true true b h = (refl, h)
and_true false b h = absurd (ground (arith, h))

falls_lem : (a b : Option ℕ) → falls a b ≡ true → (m n : ℕ) × (a ≡ some m) × (b ≡ some n) × (n < m)
unfolding falls
falls_lem none b h = absurd (ground (arith, h))
falls_lem (some m) none h = absurd (ground (arith, h))
falls_lem (some m) (some n) h = (m, n, refl, refl, ground (arith, h))

goes_on-Hop :
    (window : ℕ) (first last next : Transfer)
    → goes_on window first last next ≡ true
    → Hop window last next × (asset_key next ≡ asset_key first)
unfolding goes_on
goes_on-Hop window first last next h =
    let (linked, h1) = and_true _ _ h in
    let (asset, h2) = and_true _ _ h1 in
    let (order, h3) = and_true _ _ h2 in
    let (time, less) = and_true _ _ h3 in
    let (m, n, em, en, l) = falls_lem _ _ less in
    (
      record {
        linked = (same_iff next.from_address last.to_address).0 linked;
        in_order = ground (arith, order);
        in_time = ground (arith, time);
        amount = m;
        less = n;
        amount_read = em;
        less_read = en;
        decreasing = l;
      },
      (same_iff (asset_key next) (asset_key first)).0 asset,
    )

unlike : (s t : Text) → not (same s t) ≡ true → s ≢ t
unlike s t h e = let yes_same = (same_iff s t).1 e in absurd (ground (arith, h, yes_same))

-- Three transfers that a lead on a decreasing sequence cites: two hops of one asset that come back to
-- no address they left.
abbrev pub IsChain : ℕ → Transfer × Transfer × Transfer → Type 0
IsChain window (first, second, third) =
    Hop window first second
    × Hop window second third
    × (asset_key second ≡ asset_key first)
    × (asset_key third ≡ asset_key first)
    × (second.to_address ≢ first.from_address)
    × (third.to_address ≢ first.from_address)
    × (third.to_address ≢ first.to_address)

module _ (window : ℕ) where
  third_lem :
      (first second third : Transfer)
      → is_second window first second ≡ true
      → is_third window first second third ≡ true
      → IsChain window (first, second, third)
  unfolding is_second is_third
  third_lem first second third h2 h3 =
      let (g2, r2) = and_true _ _ h2 in
      let (back2, own2) = and_true _ _ r2 in
      let (g3, r3) = and_true _ _ h3 in
      let (back3, q3) = and_true _ _ r3 in
      let (again3, own3) = and_true _ _ q3 in
      let (hop2, asset2) = goes_on-Hop window first first second g2 in
      let (hop3, asset3) = goes_on-Hop window first second third g3 in
      (
        hop2,
        hop3,
        asset2,
        asset3,
        unlike second.to_address first.from_address back2,
        unlike third.to_address first.from_address back3,
        unlike third.to_address first.to_address again3,
      )

  first_third_lem :
      (first second : Transfer) (ts : List Transfer) (third : Transfer)
      → first_third window first second ts ≡ some third
      → is_third window first second third ≡ true
  unfolding first_third
  first_third_lem first second [] third h = cc
  first_third_lem first second (t ∷ ts) third h =
      elim (Bool-cases (is_third window first second t)) [
        | inl e ↦ let same_one : t ≡ third = ground (arith, h, e) in rw (← same_one) e
        | inr e ↦ first_third_lem first second ts third (ground (arith, h, e))
      ]

  chains_of-IsChain :
      (all : List Transfer) (first : Transfer) (ss : List Transfer)
      → All (IsChain window) (chains_of window all first ss)
  unfolding chains_of
  chains_of-IsChain all first [] = tt
  chains_of-IsChain all first (s ∷ ss) =
      let rest = chains_of-IsChain all first ss in
      elim (Bool-cases (is_second window first s)) [
        | inr e ↦ rw e rest
        | inl e ↦ elim (Option-cases (first_third window first s all)) [
          | inl g ↦ rw (e, g) rest
          | inr (t, g) ↦ rw (e, g) (third_lem first s t e (first_third_lem first s all t g), rest)
        ]
      ]

  -- Every chain consists of two hops of one asset, each of a smaller amount, begun not before the one
  -- ahead of it and within the window after it, from where that one went; neither hop goes back to the
  -- first payer, nor the second one to the first payee.
  pub chains-IsChain : (all fs : List Transfer) → All (IsChain window) (chains window all fs)
  unfolding chains
  chains-IsChain all [] = tt
  chains-IsChain all (f ∷ fs) =
      let rest = chains-IsChain all fs in
      elim (Bool-cases (may_start f)) [
        | inr e ↦ rw e rest
        | inl e ↦ rw e (
            All-append (IsChain window) (chains_of window all f all) (chains window all fs)
              (chains_of-IsChain all f all) rest)
      ]
