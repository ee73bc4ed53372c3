-- ===== src/Lib.antt =====
-- The strict pipeline that decides on execution requests: a raw JSON text goes through PREFLIGHT,
-- ORBIT, ARM and RAM0NA, each of which can refuse it, and a signed receipt records the decision.
--
-- The parts, and the files that model them:
--   shared/json.ts               Json and its children: Lexer and Parse (parseStrictJson and what it
--                                calls), Canonical (canonicalizeJson, serializeNumber); proofs in
--                                Progress, Total, Printing, Reordering
--   shared/contracts.ts          Contracts (types), Contracts/Encode and Contracts/Receipt (their JSON)
--   shared/hash.ts, shared/policy-trust.ts   Crypto
--   shared/state.ts              State (begin, commitAllow, define, reserve, snapshot, reset)
--   preflight/engine.ts          Preflight (runStrictPreflight) with Checks (the checks on a field),
--                                Calls (parseToolCalls, parseParameters), Reading (sections, texts,
--                                lists), Amounts (numbers, flags); proofs in Ranges, Reserved, Accepted,
--                                Identity, Vetted, Calm, Nesting, Total
--   orbit/engine.ts              Orbit (runStrictOrbit) and Orbit/Text (normalizeOrbitText); proofs in
--                                Laws
--   arm/engine.ts                Arm (runStrictArm, commitArmAllow, resetArmStores,
--                                defineBudgetToken); proofs in Cost, Gate, Effects, Budget
--   ram0na/engine.ts             Ramona (runStrictRamona) and Ramona/Receipt (buildReceipt, signPayload,
--                                verifyReceiptSignature, verifyReceiptPublicSignature,
--                                verifyReceiptReplay), with shared/receipt-signing.ts; proofs in
--                                Laws, Replay
--   audit/node_runtime.ts        Pipeline (executeDeterministicPipeline, seedBudgetToken); proofs
--                                in Step, Sound, Authority, Burned, Budget, Replay
-- Around the pipeline stands the sidecar, a service that admits requests, hands them to workers and
-- keeps the receipts:
--   sidecar/auth_authority.mjs   Sidecar/Authority (authorizeAuthorityAction and what it calls), with
--                                Claims and Nonces; proofs in Powers, Replay,
--                                Spent, Once
--   sidecar/receipt_persistence_queue.mjs   Sidecar/ReceiptQueue (ReceiptPersistenceQueue) and its
--                                Config (validateReceiptPersistenceConfig,
--                                SystemSaturationController); proofs in Counted, Invariant,
--                                Order, Rounds, Drain, Failure, Limits
--   sidecar/deterministic_worker_pool.mjs   Sidecar/WorkerPool (DeterministicWorkerPool) and its State;
--                                proofs in Counting, Dispatch, Retire, Valid, Once
--   sidecar/http_admission.mjs   Sidecar/Admission (createAdmissionController) and its Config; proofs
--                                in Laws, PerSocket
--   sidecar/runtime_watchdog.mjs   Sidecar/Watchdog (RuntimeWatchdog); proofs in Laws
--   sidecar/socket_registry.mjs   Sidecar/Sockets (SocketRegistry); proofs in Laws,
--                                Marks, Reasons
--   sidecar/deterministic_worker.mjs   Sidecar/Worker (the listener of a worker, over the pipeline)
-- Sidecar/Settings holds the settings that they share.
-- Prelude and Js hold what the parts share: strings, maps and the library functions of JavaScript.
-- Examples runs the whole pipeline on a request and applies the theorems to it.
--
-- How the code is represented. A string is a list of UTF-16 code units. A Map is a list of entries
-- in insertion order; the two module-level stores of ARM are a state that each call takes and
-- returns, so that a sequence of calls is a list (Pipeline.run_calls). A thrown error is `none`, or
-- `thrown` within PREFLIGHT; the stores keep what was done before it. A number of a JSON value is a
-- natural or the negative of one, so that -0 is apart from 0; the numbers that PREFLIGHT accepts are
-- naturals below 2 ^ 53. Products in ARM are exact where the code checks that they are safe integers:
-- a rounded product is safe exactly if the exact one is. The sum that a budget reservation compares
-- with a maximum is exact as well, for maxima that are safe integers. The call stack has no limit in
-- the model, while the code recurses for each level of nesting of a text (Preflight/Nesting).
--
-- An object of the sidecar is a state. Each of its public calls and each callback of the platform (a
-- timer, the end of an append, a message of a worker) is an event, a step takes the state and an event
-- and returns what the callers learn, and a history is any list of events. An event that cannot happen
-- in a state changes nothing. The clock is read by the caller, in whole milliseconds.
--
-- Fuel. The parser takes three steps of fuel for each code unit and one more, and out_of_fuel is a
-- result of its own. The decimal digits of a number take sixteen steps, as many as 2 ^ 53 has digits.
--
-- Parameters, for what is not in this repository: the digests, HMAC and Ed25519 (record Crypto), the
-- keys, the environment variables and the signing of receipts (record Signing), NFKC with lower case
-- (record Unicode), and the decoding of an assertion's payload with the verification of its signature
-- (record Sidecar.Authority.Platform). The one hypothesis on them is that what the receipt key signs, its public
-- key verifies (IsSigner).
--
-- Not modelled: the timings of the layers, the replay of a receipt file, the older pipeline under
-- mnde-core, the custody runtime, the release tools, the sidecar's HTTP endpoints and refusal
-- receipts, its interface and the benchmarks. Of the sidecar's modelled parts: the averages that the
-- worker pool reports, the wait that the admission control measures, the display form of an actor,
-- the audit file, errors on reading a nonce file that is there, the methods of a socket, the waiting
-- of a shutdown, and the ids, the times and the reason code of an error in a worker's reply.
pub mod Prelude
pub mod Js
pub mod Json
pub mod Contracts
pub mod Crypto
pub mod State
pub mod Preflight
pub mod Arm
pub mod Orbit
pub mod Ramona
pub mod Pipeline
pub mod Examples
pub mod Sidecar
