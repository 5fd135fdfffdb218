-- ===== src/Wallet/Laws.antt =====
-- What the wallet relies on in its storage and its event broker, for the theorems that name it:
-- a log of the events stored, and which calls change it. `PostgresWalletStorage` and the event
-- storage share a database whose transactions cover both.
use bitcoin_processing.Base.{◌≡◌, List, [], ◌∷◌, ◌++◌}
use bitcoin_processing.Base.Int.{ℤ}
use bitcoin_processing.Types.Transaction.{Transaction}
use bitcoin_processing.Events.Types.{EventType, Payload, Notification}
use bitcoin_processing.Monad.{ok}
use bitcoin_processing.Wallet.Interfaces.{Backend}

abbrev pub event : EventType → Payload → Notification
event et p = record { event_type = et; payload = p }

-- Where Notify succeeds it appends to the log; storing the confirmations reported leaves it alone.
pub record EventLaws {Db Node : Type 0} (b : Backend Db Node) : Type 0 where
  pub log : Db → List Notification
  pub notify_ok :
      (et : EventType) (p : Payload) (d : Db)
      → (b.notify et p d).0 ≡ ok tt
      → log (b.notify et p d).1 ≡ log d ++ event et p ∷ []
  pub report_log :
      (t : Transaction) (i : ℤ) (d : Db)
      → log (b.storage.update_reported_confirmations t i d).1 ≡ log d
