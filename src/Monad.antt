-- ===== src/Monad.antt =====
-- Go functions that change state and return an error, as actions: a state, and how the call ended.
-- The state comes back after an error or a panic too, since what was written stays written.
pub mod Inversion
pub mod Keeps
use bitcoin_processing.Base.{ℕ, String}
use bitcoin_processing.Bitcoin.Fee.{FeeType}
use bitcoin_processing.Types.Status.{TransactionStatus}

-- The errors that the program tells apart, and those it makes itself (its texts are left out).
pub data Error : Type 0 where
  no_rows : Error  -- sql.ErrNoRows
  no_tx_with_such_id : ℕ → Error
  hot_wallet_not_generated : Error
  rpc_error : String → Error  -- *nodeapi.JSONRPCError, by its message
  external : String → Error  -- any other error of a collaborator
  wrapped : String → Error → Error
  bad_fee_type : String → Error
  below_min_withdraw below_min_fee_per_kb below_min_fee_fixed : Error
  tx_exists : ℕ → Error
  fee_exceeds_amount : Error
  fee_type_not_supported : FeeType → Error
  not_pending : Error
  not_pending_manual_confirmation : TransactionStatus → Error
  empty_address no_cold_wallet_address to_hot_wallet : Error
  no_such_event already_muted not_retrying no_event_to_mute not_about_tx : Error

pub data Fault : Type 0 where
  unexpected_direction other_hash aborting : Fault
  failed : Error → Fault
  not_mine cold_is_mine empty_hot_wallet_address negative_index nil_pointer not_supported locked :
      Fault
  index_out_of_range too_few_arguments unknown_command stopped_abnormally : Fault

pub data Outcome (A : Type 0) : Type 0 where
  ok : A → Outcome A
  err : Error → Outcome A
  panic : Fault → Outcome A

abbrev pub M : Type 0 → Type 0 → Type 0
M S A = S → Outcome A × S

module _ {S A : Type 0} where
  abbrev pub pure : A → M S A
  pure a s = (ok a, s)

  abbrev pub fail : Error → M S A
  fail e s = (err e, s)

  abbrev pub throw : Fault → M S A
  throw p s = (panic p, s)

  abbrev pub gets : (S → A) → M S A
  gets f s = (ok (f s), s)

  abbrev pub lift : Outcome A → M S A
  lift r s = (r, s)

  -- A call whose error the caller inspects.
  abbrev pub catch : M S A → (Error → M S A) → M S A
  catch m h s =
      let (r, s') = m s in elim r [ ok a ↦ (ok a, s') | err e ↦ h e s' | panic p ↦ (panic p, s') ]

infixl 5 ◌>>=◌ ◌>>◌
abbrev pub ◌>>=◌ : {S A B : Type 0} → M S A → (A → M S B) → M S B
◌>>=◌ m f s =
    let (r, s') = m s in elim r [ ok a ↦ f a s' | err e ↦ (err e, s') | panic p ↦ (panic p, s') ]

abbrev pub ◌>>◌ : {S A B : Type 0} → M S A → M S B → M S B
m >> k = m >>= λ _. k

module _ {S : Type 0} where
  abbrev pub modify : (S → S) → M S (Unit {0})
  modify f s = (ok tt, f s)

  abbrev pub skip : M S (Unit {0})
  skip s = (ok tt, s)
