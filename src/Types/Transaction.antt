-- ===== src/Types/Transaction.antt =====
-- wallet/types/transactions.go and wallet/types/notification.go: the transaction, its updates and
-- its construction from what the node reports. A pointer receiver that is changed is returned;
-- a panic is `none`. A uuid is a number, `uuid.Nil` is 0.
use bitcoin_processing.Base.{
  ℕ, String, Bool, true, false, not, ◌&&◌, Option, none, some, str_eq, if◌then◌else◌,
}
use bitcoin_processing.Base.Int.{ℤ, negsuc, to_uint64}
use bitcoin_processing.Util.{abs64}
use bitcoin_processing.Bitcoin.Fee.{FeeType}
use bitcoin_processing.Types.Json.{Json}
use bitcoin_processing.Types.Status.{TransactionStatus}
use bitcoin_processing.Types.Direction.{TransactionDirection}

pub record Transaction : Type 0 where
  pub id : ℕ
  pub hash : String
  pub block_hash : String
  pub confirmations : ℤ
  pub address : String
  pub direction : TransactionDirection
  pub status : TransactionStatus
  pub amount : ℕ  -- uint64
  pub metainfo : Json
  pub fee : ℕ  -- uint64
  pub fee_type : FeeType
  pub cold_storage : Bool
  pub fresh : Bool
  pub reported_confirmations : ℤ

pub record TxNotification : Type 0 where
  pub transaction : Transaction
  pub status_code : ℕ
  pub status_str : String
  pub ipn_type : String
  pub currency : String
  pub ipn_id : ℕ
  pub seq : ℕ

-- The fields of btcjson.GetTransactionResult that are read.
pub record GetTransactionResult : Type 0 where
  pub tx_id : String
  pub block_hash : String
  pub confirmations : ℤ

-- The fields of btcjson.ListTransactionsResult that are read. `amount` is what btcutil.NewAmount
-- makes of the float that the node sends: an int64, or `none` for its error.
pub record ListTransactionsResult : Type 0 where
  pub category : String
  pub tx_id : String
  pub block_hash : String
  pub confirmations : ℤ
  pub address : String
  pub amount : Option ℤ

-- The guard of both updates: the hash was set, and the other one differs.
abbrev other_hash : String → String → Bool
other_hash mine theirs = not (str_eq mine "") && not (str_eq mine theirs)

unfoldable pub update : Transaction → Transaction → Option Transaction
update tx other =
    if other_hash tx.hash other.hash
    then none
    else some (record tx {
      hash = other.hash;
      block_hash = other.block_hash;
      confirmations = other.confirmations;
      status = other.status;
    })

unfoldable pub update_from_full_tx_info : Transaction → GetTransactionResult → Option Transaction
update_from_full_tx_info tx other =
    if other_hash tx.hash other.tx_id
    then none
    else some (record tx { block_hash = other.block_hash; confirmations = other.confirmations })

abbrev pub direction_of_category : String → TransactionDirection
direction_of_category category =
    if str_eq category "receive"
    then TransactionDirection.incoming
    else if str_eq category "send"
    then TransactionDirection.outgoing
    else TransactionDirection.unknown

-- `BTCAmount(util.Abs64(int64(a)))`, and 0 when the conversion of the float failed.
abbrev pub amount_of_node : Option ℤ → ℕ
unfolding abs64 to_uint64
amount_of_node none = 0
amount_of_node (some a) = to_uint64 (abs64 a)

unfoldable pub new_transaction_from_btcjson : ListTransactionsResult → Transaction
unfolding amount_of_node
new_transaction_from_btcjson t = record {
  id = 0;
  hash = t.tx_id;
  block_hash = t.block_hash;
  confirmations = t.confirmations;
  address = t.address;
  direction = direction_of_category t.category;
  status = TransactionStatus.new;
  amount = amount_of_node t.amount;
  metainfo = Json.null;
  fee = 0;
  fee_type = FeeType.invalid;
  cold_storage = false;
  fresh = true;
  reported_confirmations = negsuc 0;
}
