-- ===== src/Source.antt =====
-- What a chain adapter says of its source, and a page of transfers: internal/adapter/chain.go. The latest
-- block of the chain's client is an argument; `none` is its error.
pub mod Base58
pub mod Address
pub mod Tron
use open_chain.Prelude.{
  ℕ, ◌+◌, ◌-◌, ◌*◌, ◌/◌, ◌%◌, ◌^◌, Bool, false, Option, none, some, List, [], ◌∷◌, ◌++◌, Text,
  codes, ltb, if◌then◌else◌, is_empty,
}
use open_chain.Prelude.Int.{ℤ, pos, pos_part, neg_part, ltb_ℤ}
use open_chain.Prelude.Decimal.{itoa}
use open_chain.Transfers.{Asset, TransferItem}

pub record SourceStatus : Type 0 where
  pub source : Text
  pub retrieved_at : ℕ
  pub indexed_up_to_block : ℤ
  pub latest_chain_block : ℤ
  pub is_complete : Bool
  pub warning : Text

pub record TransferPage : Type 0 where
  pub transfers : List TransferItem
  pub next_cursor : Text
  pub has_more : Bool
  pub source_status : SourceStatus

-- PageStatus
unfoldable pub page_status : SourceStatus → Bool → SourceStatus
page_status status has_more = if has_more then record status { is_complete = false } else status

abbrev pub finality_warning : Text
finality_warning =
    codes "Chain confirmation height is unavailable; observations remain provisional."

-- withFinalityWarning
unfoldable pub with_finality_warning : SourceStatus → SourceStatus
with_finality_warning status = record status {
  warning =
      if is_empty status.warning
      then finality_warning
      else status.warning ++ (codes " " ++ finality_warning);
}

-- withEVMChainHead; the outer `none` is a client that is nil, the inner one its error.
unfoldable pub with_evm_chain_head : SourceStatus → Option (Option ℕ) → SourceStatus
with_evm_chain_head status none = with_finality_warning status
with_evm_chain_head status (some none) = with_finality_warning status
with_evm_chain_head status (some (some latest)) =
    if ltb (2 ^ 63 - 1) latest
    then with_finality_warning status
    else record status { latest_chain_block = pos latest }

-- The ten-thousandths nearest to n / base, halves rounded up.
unfoldable pub ten_thousandths : ℕ → ℕ → ℕ
ten_thousandths n base = (n * 20_000 + base) / (2 * base)

-- Four digits, zeros in front.
unfoldable pub four_digits : ℕ → Text
four_digits n =
    (b'0' + n / 1000 % 10) ∷ (b'0' + n / 100 % 10) ∷ (b'0' + n / 10 % 10) ∷ (b'0' + n % 10) ∷ []

-- (*big.Rat).FloatString(4) of value / base: halves are rounded away from zero, and the sign stays.
unfoldable pub float_string : ℤ → ℕ → Text
unfolding four_digits
float_string value base =
    let n = ten_thousandths (pos_part value + neg_part value) base in
    (if ltb_ℤ value (pos 0) then b'-' ∷ [] else [])
    ++ (itoa (n / 10_000) ++ (b'.' ∷ four_digits (n % 10_000)))

-- FormatAmount
unfoldable pub format_amount : Option ℤ → Asset → Text
format_amount none asset = if is_empty asset.symbol then codes "0" else codes "0 " ++ asset.symbol
format_amount (some value) asset =
    let amount = float_string value (10 ^ asset.decimals) in
    if is_empty asset.symbol then amount else amount ++ (codes " " ++ asset.symbol)
