-- ===== src/Rules/Leads.antt =====
-- What the detectors share: keys, amounts, order, groups and leads, of internal/rules/detect.go. The
-- first eight bytes of a SHA-256 digest in hexadecimal are the argument `digest`.
use Prim.Native.String.{String}
use open_chain.Prelude.{
  ℕ, ◌/◌, ◌*◌, Bool, false, not, ◌&&◌, Option, none, some, List, [], ◌∷◌, ◌++◌, map, Text, codes,
  same, before, ltb, ◌==◌, if◌then◌else◌, keep,
}
use open_chain.Prelude.Int.{ℤ, pos, negsuc}
use open_chain.Prelude.Decimal.{itoa}
use open_chain.Prelude.Sort.{sort}
use open_chain.Transfers.{Transfer, set_string}
use open_chain.Rules.Catalog.{Definition}

pub record Lead : Type 0 where
  pub id : Text
  pub rule_id : Text
  pub rule_version : Text
  pub title : Text
  pub subject_address : Text
  pub transfer_ids : List Text
  pub rationale : Text
  pub limitations : Text
  pub parameters : Text

abbrev nul : Text
nul = 0 ∷ []

-- assetKey
unfoldable pub asset_key : Transfer → Text
asset_key t = t.asset.kind ++ (nul ++ (t.asset.contract_address ++ (nul ++ t.asset.symbol)))

natural : Option ℤ → Option ℕ
natural none = none
natural (some (negsuc n)) = none
natural (some (pos n)) = some n

-- parsedAmount: a decimal number that is not negative.
unfoldable pub parsed_amount : Transfer → Option ℕ
unfolding natural
parsed_amount t = natural (set_string t.amount_base_units)

equal_amounts : Option ℕ → Option ℕ → Bool
equal_amounts none b = false
equal_amounts (some a) none = false
equal_amounts (some a) (some b) = a == b

-- sameAmount
unfoldable pub same_amount : Transfer → Transfer → Bool
unfolding equal_amounts
same_amount s t = equal_amounts (parsed_amount s) (parsed_amount t)

-- By time, then by id.
unfoldable pub earlier : Transfer → Transfer → Bool
earlier s t =
    if s.block_timestamp == t.block_timestamp
    then before s.id t.id
    else ltb s.block_timestamp t.block_timestamp

-- sortTransfers
unfoldable pub sort_transfers : List Transfer → List Transfer
sort_transfers = sort earlier

-- transferIDs
unfoldable pub transfer_ids : List Transfer → List Text
transfer_ids ts = sort before (map (λ (t : Transfer). t.id) ts)

unfoldable pub is_backed : Transfer → Bool
is_backed t = not t.provisional && not (t.block_timestamp == 0)

-- confirmationBackedTransfers
unfoldable pub confirmation_backed_transfers : List Transfer → List Transfer
unfolding is_backed
confirmation_backed_transfers ts = sort_transfers (keep is_backed ts)

-- A map from keys to slices, in the order in which the keys came; Go's order of iteration is any.
abbrev pub Groups : Type 0
Groups = List (Text × List Transfer)

-- groups[key] = append(groups[key], transfer)
unfoldable pub add_to : Text → Transfer → Groups → Groups
add_to k t [] = (k, t ∷ []) ∷ []
add_to k t ((j, ts) ∷ gs) = if same k j then (j, ts ++ t ∷ []) ∷ gs else (j, ts) ∷ add_to k t gs

-- strings.Join(ids, "\x00")
unfoldable pub join_ids : List Text → Text
join_ids [] = []
join_ids (i ∷ []) = i
join_ids (i ∷ j ∷ is) = i ++ (nul ++ join_ids (j ∷ is))

-- int(window.Hours())
unfoldable pub hours : ℕ → Text
hours window = itoa (window / (3600 * 1_000_000_000))

module _ (digest : Text → Text) where
  -- lead
  unfoldable pub lead : Definition → Text → String → Text → List Text → Lead
  lead d subject title rationale ids =
      let ids = sort before ids in
      record {
        id =
            codes d.id
            ++ (codes ":"
                ++ digest (
                    codes d.id
                    ++ (nul ++ (codes d.version ++ (nul ++ (subject ++ (nul ++ join_ids ids)))))));
        rule_id = codes d.id;
        rule_version = codes d.version;
        title = codes title;
        subject_address = subject;
        transfer_ids = ids;
        rationale = rationale;
        limitations = codes d.limitations;
        parameters = codes d.default_parameters;
      }
