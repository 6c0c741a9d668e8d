-- ===== src/Transfers.antt =====
-- The transfer records: Asset and TransferItem of internal/adapter/chain.go and Transfer of
-- internal/db/transfers.go, with the reading of decimal amounts by (*big.Int).SetString.
-- A time is a number of nanoseconds since the Unix epoch, and 0 is the zero time; a time at or before
-- the epoch has no value.
use open_chain.Prelude.{ℕ, ◌-◌, Bool, Option, none, some, [], ◌∷◌, Text, ◌==◌, if◌then◌else◌}
use open_chain.Prelude.Int.{ℤ, pos, negsuc}
use open_chain.Prelude.Decimal.{read_digits}

pub record Asset : Type 0 where
  pub kind : Text
  pub contract_address : Text
  pub symbol : Text
  pub decimals : ℕ

pub record TransferItem : Type 0 where
  pub hash : Text
  pub event_id : Text
  pub transfer_kind : Text
  pub from : Text
  pub to : Text
  pub amount_base_units : Text
  pub asset : Asset
  pub block_number : ℤ
  pub block_hash : Text
  pub timestamp : ℕ

pub record Transfer : Type 0 where
  pub id : Text
  pub network : Text
  pub transaction_hash : Text
  pub event_id : Text
  pub transfer_kind : Text
  pub from_address : Text
  pub to_address : Text
  pub asset : Asset
  pub amount_base_units : Text
  pub block_number : ℤ
  pub block_hash : Text
  pub block_timestamp : ℕ
  pub provisional : Bool
  pub source : Text
  pub retrieved_at : ℕ

-- At least one digit.
some_digits : Text → Option ℕ
some_digits [] = none
some_digits (c ∷ s) = read_digits 0 (c ∷ s)

negated : Option ℕ → Option ℤ
negated none = none
negated (some n) = some (if n == 0 then pos 0 else negsuc (n - 1))

positive : Option ℕ → Option ℤ
positive none = none
positive (some n) = some (pos n)

-- new(big.Int).SetString(value, 10): digits behind an optional sign.
unfoldable pub set_string : Text → Option ℤ
unfolding some_digits negated positive
set_string [] = none
set_string (c ∷ s) =
    if c == b'-'
    then negated (some_digits s)
    else if c == b'+'
    then positive (some_digits s)
    else positive (some_digits (c ∷ s))
