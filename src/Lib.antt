-- ===== src/Lib.antt =====
-- bitcoin-processing, a payment gateway for Bitcoin: the wallet, its events, and what they share.
--
-- The parts, and how they work together. The wallet (package wallet) polls a Bitcoin node, keeps
-- transactions and accounts in its storage, pays withdrawals, and reports every change as an event.
-- The event broker (package events) stores events under sequence numbers, posts them to an HTTP
-- callback, and broadcasts them to websocket subscribers. Wallet and events share a database; a
-- wallet method that changes both runs in one transaction of it (package storage).
--
-- Files. Base and its children hold what all modules share: Boolean tests, lists over the native
-- numbers, names looked up in maps, and integers with the wrap-around of int64 and uint64. Monad is
-- the shape of Go functions that change a state and return an error; a panic is a third outcome,
-- and what was written before an error or a panic stays written.
--   Util: util/minmax.go, util/abs.go. Bitcoin.Fee: bitcoin/fee.go.
--     Bitcoin.Formats: bitcoin/formats.go.
--   Types: wallet/types (Status, Direction, Transaction with Update and the two conversions from
--     the node's answers; Json is what metainfo can hold).
--   Storage: MakeTransactIfAvailable of storage/storage.go. Storage.Meta: GetMeta and SetMeta.
--   Bitcoin.NodeApi: bitcoin/nodeapi/rpc.go, the node client, which fills the wallet's NodeApi, over
--     the calls of the node; Bitcoin.NodeApi.Transport: the same calls as HTTP requests.
--   Settings: settings, and what the constructors read from them.
--   Events.Types: events/types.go. Events.Memory: the interface of events/storage.go and
--     InMemoryEventStorage. Events.Postgres: events/postgresstorage.go.
--     Events.Broadcaster: broadcasterWithStorage of events/broadcaster.go.
--     Events.Callback: events/httpcallback.go, mute.go, integrity.go and dbtransaction.go, with the
--     JSON that is posted in Events.Callback.Body.
--     Events.Broker: the methods and the main loop of events/broker.go, and events/websocket.go.
--   Wallet.Interfaces: what the wallet is given (Storage, NodeAPI, settings, the broker's Notify)
--     and its own state. Notify: notifyTransaction and setTxStatusByConfirmations of
--     wallet/updates.go, and wallet/notify.go. Send: sendWithdrawal and what it calls in
--     wallet/withdraw.go. Pending: wallet/pending.go. Updates: the polling of wallet/updates.go.
--     Withdraw: the checks of wallet/withdraw.go. Addresses: wallet/hotwallet.go, coldwallet.go,
--     accounts.go. Info: wallet/info.go, integrity.go. Loop: mainLoop and Run.
--   Wallet.Postgres: wallet/postgresstorage.go (Postgres itself: rows and StoreTransaction; Methods:
--     the other methods, and the interface that they fill; Tables: the laws of the SQL statements,
--     and StoreTransaction as a step of a map of rows). Wallet.Memory: wallet/memorystorage.go.
--   Api: the handlers of api/http.go over the Services that they call. Api.Websocket:
--     api/websocket.go. Api.Client: api/client and util/urljoin.go; Api.Client.Served puts it and
--     the handlers together; Api.Client.Websocket: api/client/websocket.go.
--   Commands: cmd/bitcoin-processing-client. Commands.Runner: how cmd/bitcoin-processing runs and
--     stops its components.
--   Monad.Keeps and Wallet.Frame have, for each operation, which parts of a state it leaves alone.
--
-- How state corresponds. A method of Wallet acts on World: the database, the node, the wallet's
-- fields, and `tx`, the object that the method's argument points to. Transactions are passed by
-- value, as PostgresWalletStorage hands out fresh objects; a storage call that changes its argument
-- (StoreTransaction, updateReportedConfirmations) changes `tx`, also where the database transaction
-- around it is rolled back. The database, the node and the HTTP server are parameters; the theorems
-- that rely on something about them name it (EventLaws, MoneyLaws, MetaLaws, TableLaws, AmountLaws,
-- WireLaws, or a hypothesis), and small stand-ins in the Tests modules meet all of it. Goroutines,
-- channels and the mutex are left out: a loop takes the list of what its select receives, with the
-- answers of the later checks of the stop trigger, and a broadcaster's method is one step. An SQL
-- statement is the text of the source, white space apart, and the driver that runs it is a
-- parameter; so are encoding/json, strconv, the decimal library, the generator of identifiers, the
-- text that a JSONB column gives back, and the floats that the node is sent. In Wallet.Memory a
-- transaction is an object on a heap, since that storage keeps and hands out pointers; all other
-- modules pass transactions by value.
--
-- Numbers. Amounts and fees are natural numbers; the balance in tryToUpdatePendingTxns is an int64
-- whose additions, subtractions and conversions wrap around, and the theorem about it names the
-- bounds. Confirmations and sequence numbers are integers without a bound. The loop of
-- notifyTransaction runs on the number of its rounds, computed from its bounds, so it has no fuel;
-- the retries of a failed save are counted down from 10 as in the code. The other loops go through
-- a list. Identifiers (uuid.UUID) are numbers, 0 for the nil one; the texts of errors are left out.
--
-- Not modelled: the websocket command, the tools and the integration tests, goroutines, logs, and
-- metrics other than the two gauges of the wallet.
pub mod Api
pub mod Base
pub mod Bitcoin
pub mod Commands
pub mod Events
pub mod Monad
pub mod Settings
pub mod Storage
pub mod Types
pub mod Util
pub mod Wallet
