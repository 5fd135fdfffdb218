-- ===== src/Wallet/Tests/Internal.antt =====
-- The theorem on transfers between accounts of the wallet, at the stand-ins.
use bitcoin_processing.Base.{◌==◌, ◌≤◌, false, [], ◌≡◌, refl, sym, ap, ◌∙◌, inl, inr, Bool-cases}
use bitcoin_processing.Types.Json.{Json}
use bitcoin_processing.Types.Transaction.{Transaction}
use bitcoin_processing.Events.Types.{Account}
use bitcoin_processing.Monad.{ok}
use bitcoin_processing.Wallet.Interfaces.{World}
use bitcoin_processing.Wallet.Send.{internal_withdraw_between_our_accounts}
use bitcoin_processing.Wallet.Send.Internal.{
  Recorded, recorded, KeepsArgument, Transfers, outgoing, internal_withdraw_stores,
}
use bitcoin_processing.Wallet.Tests.Double.{Db, Node, backend, empty_db, world, with_id, evaluation}

abbrev somebody : Account
somebody = record { address = "somebody"; metainfo = Json.null }

abbrev recorded_world : World (Recorded Db) Node
recorded_world = record {
  db = (empty_db, []);
  node = world.node;
  tx = world.tx;
  hot_wallet_address = world.hot_wallet_address;
  cold_wallet_address = world.cold_wallet_address;
  waiting_manual_confirmation = world.waiting_manual_confirmation;
  waiting_blockchain_confirmation = world.waiting_blockchain_confirmation;
  triggers = 0;
  retries_scheduled = 0;
  notifications_sent = 0;
}

same_but_id :
    (t : Transaction) (d : Db)
    → with_id t d ≡ (record t { id = (with_id t d).id; fresh = (with_id t d).fresh })
same_but_id t d = elim (Bool-cases (t.id == 0)) [ inl e ↦ rw e refl | inr e ↦ rw e refl ]

same_argument :
    (t : Transaction) (d : Db) (p : Transaction × Transaction)
    → (backend.storage.store_transaction t d).0 ≡ ok p
    → p.0 ≡ (record t { id = p.0.id; fresh = p.0.fresh })
same_argument t d p h =
    let same : (with_id t d, with_id t d) ≡ p = cc in
    ap (λ x. x.0) (sym same)
    ∙ same_but_id t d
    ∙ ap (λ x. record t { id = x.0.id; fresh = x.0.fresh }) same

pub keeps : KeepsArgument backend
keeps = record { same_argument = same_argument }

transferred :
    (internal_withdraw_between_our_accounts (recorded backend) somebody recorded_world).0 ≡ ok tt
unfolding evaluation
transferred = refl

internal_withdraw_stores_example :
    ((outgoing backend world.tx).fee ≤ 50)
    × Transfers backend false somebody
        (outgoing backend world.tx)
        recorded_world
        (internal_withdraw_between_our_accounts (recorded backend) somebody recorded_world).1
internal_withdraw_stores_example =
    internal_withdraw_stores backend somebody recorded_world keeps transferred
