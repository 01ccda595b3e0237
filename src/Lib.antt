-- ===== src/Lib.antt =====
-- Verification of the gateway: the service that takes requests of web clients, runs them against a
-- blockchain, and keeps the responses in messaging queues until the clients poll them.
--
-- Parts and files.
--
-- - Prelude: shared names, lists over the native numbers, 64-bit words (Prelude/Words: Go's uint and
--   uint64, with the wrap-around of each operation written out).
-- - Errors: errors/error.go. Errors/Internal and Errors/Request hold a constant for each declared
--   error code. `Outcome` is what a Go call comes to: a value, a returned error, or a panic.
-- - Backend: backend/core. Backend/Events is entity.go, Backend/Queues the interface MQueue of
--   mqueue/core/mqueue.go, Backend/Subscriptions the SubscriptionManager of subscription.go, with the
--   goroutine of one subscription in Backend/Subscriptions/Delivery and the abstract registry in
--   Backend/Subscriptions/Registry. Backend/Requests is RequestManager of manager.go: it is given the
--   queues, the client of the blockchain and the codec of encoding/json as arguments. What a method
--   starts as a goroutine is a function of its own, since it runs at any later time.
-- - Concurrent: concurrent. Concurrent/Retry is RetryWithConfig of conc.go, on a list of what its select
--   statement receives, and in Concurrent/Retry/Supply on a supplier with a state of its own. Concurrent/Batch is
--   BatchRunner of conc.go: the goroutines of a batch, its channels with their capacity, as steps in any order.
--   Concurrent/Master is Master (master.go): its loop, the ends of its workers' goroutines and the events
--   that they leave, as actions on the maps of workers and the counter that Stop waits for, with the
--   actions of a graceful life as a relation in Concurrent/Master/Graceful. Concurrent/Worker is the loop of a
--   Worker (worker.go) on what it receives.
-- - Eth: eth, the gateway's access to an Ethereum node. Eth is the interface Client of client.go, Eth/Pool
--   UniDialer and the retried requests of PooledClient, Eth/Client its methods as an instance of the
--   interface, Eth/Logs the events that LogSubscriber
--   (subscription.go) delivers, Eth/Subscription the worker of a subscription.
-- - Tx: tx. Tx/Owner is WalletOwner (owner.go): nonces, balances, and the sending of transactions, with
--   the transactions that were handed to the client as a history; Tx/Owner/Execute is executeTransaction.
-- - Backend/Ethereum is Client of backend/eth/client.go, an instance of the client that RequestManager is
--   given; Backend/Ethereum/Wallet puts it on top of a wallet of Tx. Backend/Memory is Server of mqueue/mem as
--   the queues of RequestManager.
-- - Callback: callback/client/client.go. Callback is the making and sending of a request;
--   Callback/Threshold is when a change of a balance is notified.
-- - Rpc: rpc/http.go. Rpc/Http is what HttpRoute and HttpRouter write for a request, as the list of the
--   calls on the response writer, with the recovery of panics; Rpc/Json is HttpJsonHandler, Rpc/Binder is
--   HttpBinder, Rpc/Cors the preprocessors of a route. Rw: the limited readers of rw/reader.go, by which the body of a request is read,
--   and the writer of rw/writer.go in Rw/Writer.
-- - Api: api/v0. Api/Service is ServiceHandler (service/handler.go), with parseExecuteMessage in Api/Message,
--   Api/Event is EventHandler (event/handler.go), both over RequestManager.
-- - Auth: auth/core. Auth/Multi is MultiAuth, Auth/Middleware is HttpMiddlewareAuth (http.go), which puts
--   a request into the session that its queues are named after.
-- - Mqueue: mqueue/core/mqueue.go and mqueue/mem. Mqueue/Window and Mqueue/Window/Slide are the methods
--   of SlidingWindow (window.go); Mqueue/Handler is MessageHandler (message_handler.go), the code that
--   a queue's worker runs. Mqueue/Window/Queue and Mqueue/Handler/Serve are the abstract queue that
--   the clients rely on. The relation `Represents` (Mqueue/Window/Refine) ties the two, for windows
--   in which no element is discarded in the middle. Mqueue/Window/Marks is about those in which some are.
--   Mqueue/Server is server.go: the queues of all keys. Mqueue/Redis is mqueue/redis/redis.go with the commands of
--   command.go, Mqueue/Redis/Scripts the scripts of redis.lua over the commands of a redis server.
-- - Noise: noise. Noise/Handshake, Noise/Transport and Noise/Session are session.go, Noise/Frames codec.go, Noise/Conn
--   conn.go, with the other end of a connection in Noise/Conn/Peer, and Noise/Client client.go. The library flynn/noise
--   and the CBOR codec are records of functions, with what they document of two ciphers in Noise/Transport/Transfer.
-- - Stats: Stats/Window is stats/window.go, Stats/Counters stats/counter.go, Stats/Tracker stats/instrument.go, of
--   which a caller gives the latencies.
--
-- Bounds. Offsets and sizes are 64-bit words. The theorems on a window ask that its maximal size is below
-- 2^63 and that its offsets stay below 2^64 (`IsSmall`); a queue of the gateway has a maximal size of
-- 1024 and hands out one offset for each request. All loops are structural recursions on the slots that
-- they scan, so no fuel is needed. A loop of retries on a supplier has as many calls as there are attempts, and
-- at least one, which is enough when the attempts are limited. A handshake of Noise/Conn has at most
-- ten rounds, as in the source.
--
-- Not modelled: the counters of rpc, the authenticators, the handlers of health and information, the
-- choice of a wallet by the executor of tx, the expiry of redis keys, the manager of subscriptions of
-- eth, the ekiden backend, configuration and logging, and the channels and locks between goroutines, of
-- which only the order in which requests are served is kept.
pub mod Prelude
pub mod Errors
pub mod Concurrent
pub mod Mqueue
pub mod Noise
pub mod Stats
pub mod Eth
pub mod Tx
pub mod Backend
pub mod Callback
pub mod Rpc
pub mod Rw
pub mod Auth
pub mod Api
