-- ===== src/Lib.antt =====
-- The backend of the MyQRL wallet (DigitalGuards/myqrlwallet-backend): the relay that connects a
-- dApp with a wallet, and the proxies in front of the RPC endpoints and the IPFS gateways.
--
-- Relay: src/relay/channelManager.ts. The server's Socket.IO handlers call the channel manager,
-- which keeps the channels with their participants and buffered messages, the reservations for
-- messages handed to a socket and not yet drained, and the byte counters for its budgets.
--   Relay/Types       the records and constants; `Setup` holds the configured limits
--   Relay/Ledger      retainBufferedBytes, releaseBufferedBytes, releaseDirectDelivery
--   Relay/Join        join                 Relay/Lifecycle  close, leave, cleanup, destroy, queries
--   Relay/Route       routeMessage, advanceDirectDelivery
--   Relay/Run         sequences of the calls that a server can make
-- The other modules of Relay are proofs: Accounting (the counters), Budgets, Channels (what holds of
-- each channel), Messages (routeMessage), Admission (join), Delivery, Expiry.
-- A channel object is a place in a heap and the map of channels holds references, since a
-- reservation keeps the object of a channel that the map has dropped. `Date.now()` is read once per
-- call. Base64 and the size of a payload's JSON text are parameters, and so is what sockets are
-- active or ready, for each call. The counters are natural numbers: where the source subtracts
-- under `Math.max(0, _)` or deletes an entry that is not positive, subtraction that stops at 0 does
-- the same. The byte budgets add the new message's size before they subtract that of the entry it
-- replaces. Texts are compared as sequences of characters; socket ids are not empty.
--
-- Server: src/relay/relayServer.ts, the Socket.IO server that owns the channel manager. Each event it
-- handles is one step on its state, with the effects it emits:
--   Server/Limits     checkRateLimit and the cleanup of its windows
--   Server/Sockets    admitEngineRequest, the connection handler, disconnect, releaseSocketCounter
--   Server/Transport  armDirectDelivery, releaseDirectDelivery     Server/Drain  onDrain, onReady
--   Server/Joining    join_channel         Server/Messages  message
--   Server/Control    leave_channel, close_channel, ping
--   Server/Run        the events, runs of them, and destroy
-- Server/Limits/Windows, Server/Counters and Server/Answers are proofs. `join_channel`
-- waits for rooms up to three times: a `JoinStage` of the connection says where, the event `resumed`
-- goes on from there, the event `rejected` is an error of the room's call, and any other event may
-- come in between. What Socket.IO knows of its sockets in a turn (registered, connected, open,
-- writable, the number of clients) is the parameter `Turn`; disconnecting a socket runs its
-- disconnect handler at once. The metrics are not modelled.
--
-- Health: src/services/rpc/healthMonitor.ts. The monitor polls each endpoint and keeps its record;
-- the RPC service asks it which endpoints may be sent a request.
--   Health/Types      EndpointRecord and its configuration
--   Health/Progress   applyPollSuccess, applyFailure
--   Health/Poll       pollOne, as a function of the endpoint's replies
--   Health/Routing    orderEndpointsForAttempt, hasFreshHead, readyEndpointsForAttempt
-- Health/Ready, Health/Verified, Health/Identity and Health/Runs are proofs. The replies of a poll are
-- parameters: what the transport and the bounded reader give. The sort of an endpoint list is an
-- insertion sort, which is stable as the language's sort is. Notifications are values that a step
-- returns.
--
-- Rpc: src/middleware/rpc-security.ts, src/utils/qrl-address.ts, src/crypto/qip55-checksum.ts.
--   Rpc/Methods       normalizeRpcId, rpcBatchReject, rpcMethodWhitelist
--   Rpc/Params        rpcParamsValidator   Rpc/Logs  the filter of qrl_getLogs
--   Rpc/Slots         acquireRpcCallSlot and the function it returns, in src/services/rpc.service.ts;
--                     a call's slot is released once, when the call ends
--   Rpc/Call          makeRPCCall and readBoundedRpcJson, in the same file
--   Rpc/Failover      the choice of endpoints and the loop of executeRPC, in the same file
--   Rpc/Execute       executeRPC, with its cache
--   Rpc/Address       isQrlAddress, hasValidCase, checksummedBody; SHAKE-256 is a parameter
-- Rpc/Address/Checksum, Rpc/Slots/Exact, Rpc/Logs/Forwarded, Rpc/Call/Errors and the modules below Rpc/Execute are proofs.
-- A request takes turns with others: the parameter `Exchange` says what an endpoint replies and what
-- other calls do to the slots while a call waits, and `Circumstances` what other requests do to the
-- cache before this one writes to it. The cache is a parameter; a law says that what is found in it
-- after an entry is set is that entry or was there before.
--
-- BoundedJson: src/utils/bounded-json.ts, the reader for the bodies of the endpoints' responses. The
-- chunks of a body are a list; the text decoder, with its state, and `JSON.parse` are parameters.
-- BoundedJson/Whole and BoundedJson/Accepted are proofs; they assume that the decoder gives the same
-- text however its input is cut.
--
-- Ipfs: src/routes/ipfs.routes.ts, the proxy in front of the IPFS gateways.
--   Ipfs/Paths        isValidCid, isSafePath, isInlineMediaType   Ipfs/Slots  acquireFetchSlot
--   Ipfs/Cooldown     shouldCoolDownForServerError, retryAfterMs, failurePriority, preferFailure
--   Ipfs/Stream       streamGatewayResponse, sendStreamError      Ipfs/Handler  ipfsHandler
-- Ipfs/Paths/Safe, Ipfs/Stream/Passed and the modules below Ipfs/Cooldown and Ipfs/Handler are
-- proofs.
-- Requests share the gateways: an `Attempt` has the gateway as the loop finds it and a
-- `GatewayReply` as it is when the answer has come, so other requests may change it in between. What
-- `fetch` and the upstream body give, the time, the aborts and whether the client is gone are
-- parameters of each attempt. A write sends the headers; a number of `Retry-After` that floating
-- point would round is beyond the longest cool-down in any case.
--
-- Config: src/config/index.ts, which reads the environment when the program starts.
--   Config/Numbers    parsePositiveInt, parseNonNegativeInt, the IPFS limits of CONFIG
--   Config/Endpoints  parseEndpointList, parseDormantEndpointList, rpcEndpointKey
--   Config/Mainnet    parseRpcIdentity, mainnetSeparationProblem and what is decided on it
-- Config/Numbers/Parsed and the modules below Config/Mainnet are proofs. The URL parser, `isIP` and
-- `toLowerCase` are parameters. What parseInt reads is rounded to 53 bits, with units up to 2 ^ 971 as
-- the fuel, and is infinite beyond.
--
-- Value holds the values that arrive from the network, Patterns the regular expressions as functions
-- on texts, Prelude the Boolean tests, lists measured by native numbers, sums and `Map`s as
-- association lists in the order of insertion.
--
-- Hex writes a number as `toString(16)` does; Hex/Roundtrip and Hex/Canonical are proofs. Loops are
-- structural recursion but for that one, whose fuel is one more than the number it writes: each
-- division by 16 makes a number smaller.
--
-- Not modelled: the middleware of src/middleware/cors.ts and src/middleware/error-handler.ts, the
-- poll timer of the health monitor, the rest of the configuration, and what only calls Express,
-- e-mail or the log.
pub mod Prelude
pub mod Value
pub mod Patterns
pub mod Relay
pub mod Health
pub mod Rpc
pub mod Server
pub mod Ipfs
pub mod Config
pub mod Hex
pub mod BoundedJson
