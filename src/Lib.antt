-- ===== src/Lib.antt =====
-- The exact-xahau payment facilitator of x402-xahau: a verification library for x402-xahau/server.mjs,
-- the programs of x402-xahau/demo and the scripts that check emitted transactions.
--
-- The program. A resource server asks the facilitator to verify a signed Xahau payment against payment
-- requirements (verifyExact), and to settle it: to verify it again, to reserve its replay key in the
-- replay store, to submit it, and to answer with a receipt of what the ledger reports (settle). The
-- replay store keeps a payment from being submitted twice, a node connection answers questions about
-- the ledger, and an ed25519 key signs receipts of success.
--
-- The modules.
--   Prelude, Digits, Js, Message: shared names; decimal texts; JavaScript values as the code meets them
--     (a number is a natural number or `other`); error messages and early returns.
--   Libs: the codec, key and address packages as parameters, and the wrappers isValidRAddress,
--     verifyTxSignature, deriveAddressFromPubKey, keypairVerify, encodeForMultisigning.
--   Amount: parseStrictDrops (Drops), parseTokenValue, cmpTokenValue and tokenValueToString (Token),
--     canonicalizeCurrency (Currency), checkIssuedAmount (Issued).
--   Verify: verifyExact stage by stage, and replayKeyFor.
--   Store: consumedExpiryFor and MAX_VALIDITY_LEDGERS (Window), InMemoryStore (Memory), the contract that
--     settle relies on (Interface), which speaks of the expiry that a key is bound until, and RedisStore
--     (Redis) over the commands of Redis as parameters.
--   Node, Authorize: currentValidatedLedger, guardrailHookPresent, fetchAccountRoot, fetchSignerList, and
--     authorizeOnLedger with its decision.
--   Receipt, Hooks, Metrics: signed receipts and their key (Key), decodeHookExecutions, the counters.
--   Budget, Client: the decoders and computeBudget of the guardrail's budget; clientIp.
--   Policy: hookParamsMap and the search for the guardrail (Params), readStatefulHookState (State), and
--     getPolicy and getStatefulPolicy over them.
--   Rate: the Lua script REDIS_TOKEN_BUCKET_LUA (Script) over keys that expire, the limiter over it and
--     createRateLimiter (Redis), and InMemoryRateLimiter (Memory).
--   Http: readBody event by event (Body), authOk (Auth), buildHealth and metricsPrometheus (Health), the
--     requests, the routes and the state of the server (Request), the guards that routes share (Guards)
--     and the handler of serve (Routes), which runs settle, verifyExact, getPolicy and simulatePayment.
--   Boot: getClient and withTimeout (Connect), validateConfig, createStore and the start of serve (Config),
--     the shutdown and closeBackends (Shutdown), as a step relation on the state of the process.
--   Settle: settle over any store that implements the calls of the contract. Settle/Effects has the
--     world of a call (the store, the counters, the list of submitted blobs) and stages that end with a
--     reply or go on; Settle/Before has the stages up to the reservation, Settle/After those from the
--     submission on, Settle/Submit and Settle/Outcome read what the ledger answers. The other modules of
--     Settle are proofs: Laws, Along, Binding, Opening, Submission, Claim and Held build up to Once; Paid and
--     Success are about receipts, and OnRedis about the keys that settle takes to RedisStore.
--   Settle/Race: calls of settle that interleave, as a step relation on a state that they share: the clock,
--     the world, and where each call is. Runs has that a call of settle is a run of these steps; Exclusive
--     has the invariant, and Unique its preservation.
--   Demo: x402-xahau/demo. The launcher facilitator-testnet.mjs over verifyExact and settle (Facilitator),
--     the resource server resource-server.mjs over any facilitator (Resource), the two together (Market),
--     and the agent agent.mjs (Agent).
--   Scripts: scripts/verify-emit.mjs (Emit) and scripts/verify-emit-vm.mjs (EmitVm).
--   Tests: sample inputs, and the theorems applied to them.
--
-- How the model corresponds. A name in snake case is the function of the source in camel case. A call
-- of the store takes the clock reading that it uses; a store call that throws is `failed`, and whether
-- it took effect is then open. A call of settle reads the clock at its first look at the store, at the
-- reservation, and once more after a lost race; the theorems that need it assume that these readings do
-- not go backwards. The function settle is one call from its first step to its last; in Settle/Race the
-- calls of settle interleave, with one call of the store or one submission as a step. There a call may act
-- on a clock reading that is old by then, a call that goes no further may read, count or reserve at any
-- time, and a key is released after its reservation has run out as well, since the code does not look;
-- ReleasesInTime are the runs in which that does not happen. What settle takes from its _deps, the client
-- and the ledger fetcher, are fields of Env.
-- Every loop of the modelled code is a recursion on a list, or on the attempts that getClient has left.
-- Two loops run on fuel: the printing of a number, which the source takes from BigInt, on the number
-- itself and one more, which Digits shows enough; and the loop of verify-emit.mjs over the bytes of a
-- text, on the length of that text, which its two digits a byte do not use up.
--
-- In the limiter in memory a number of tokens is exact, an integer over the window, where the program
-- has the nearest double; the limits and times are natural numbers. The handler takes requests one
-- after the other: a response is a function of the request and of the state that requests share.
--
-- Not modelled: log lines, header lines of a response, and replies' fields that only restate the
-- network. A hash of a response that is not a text binds no key here. Of the JSON between the programs of
-- Demo, the fields that its reader looks at are there, and a link to a page of the explorer is the
-- transaction it shows; a fetch whose response does not come throws. The start and the end of the programs
-- of Demo, which call Node only, are left out. The command-line tool in Rust, the C examples of Hooks and
-- the tests are other programs.
pub mod Prelude
pub mod Digits
pub mod Js
pub mod Message
pub mod Libs
pub mod Amount
pub mod Verify
pub mod Store
pub mod Node
pub mod Authorize
pub mod Receipt
pub mod Metrics
pub mod Hooks
pub mod Budget
pub mod Client
pub mod Settle
pub mod Rate
pub mod Policy
pub mod Http
pub mod Boot
pub mod Demo
pub mod Scripts
pub mod Tests
