-- ===== src/Lib.antt =====
-- counter-terrorist: a verification library for the orchestrator's core logic.
--
-- The orchestrator (src/orchestrator) watches a host and its mesh of peers. Its parts that are
-- modelled, each in the module named:
--
--   Merkle          core/merkle.ts, the class `MerkleTree`: `buildTree`, `addLeaf`, `getRoot`,
--                   `getProof`, `verify`; the array of levels is a list of lists
--   Canonical       core/crypto_utils.ts: `canonicalStringify` and `computeHash` over JSON values
--   AuditVerifier   domain/analysis/audit_verifier.ts: `verifyChain` over the events newest first,
--                   and `getMerkleProof`; it hashes with Canonical and proves with Merkle
--   Audit           domain/analysis/audit.ts, the class `AuditService`: `logEvent`, `processQueue`,
--                   `flushBuffer` and `commitMerkleRoot`; Audit.Sanitize has `sanitizeDataForAudit`,
--                   Audit.Sync `syncEvents`, `verifyChainIncremental`, `restoreChainHead` and
--                   `healDevChainBoundary`, Audit.Retention `purgeExpired`, `archiveToColdStorage`
--                   and `getEventsInRange`; it hashes with Canonical, commits with Merkle and
--                   verifies with AuditVerifier
--   Timeline        infrastructure/persistence/repositories/timeline_repository.ts, the store of the
--                   events, in the order of its keys
--   CircuitBreaker  core/utils/resilience.ts: the class `CircuitBreaker`; a call's outcome and the
--                   clock are arguments of `execute`
--   Retry           core/utils/resilience.ts: `retry`, with `secureRandomInt` for its waits; the
--                   action is a function from the number of the attempt to its result
--   Values          the values that rules compare, with the comparisons of the language
--   Policy          domain/orchestration/policy_dsl.ts: rules and `evaluate`
--   Policy.Engine   domain/orchestration/policy_engine.ts: the policy, its updates and `evaluate`
--   RateLimit       domain/identity/rate_limit.ts: `checkLimit`, `syncKey`, `syncToKv` and the flush
--   Quorum          domain/orchestration/mesh/consensus_manager.ts: `requestQuorumCommand`
--   Registry        core/registry.ts: `ServiceRegistry`; what a service's `init` and `shutdown` do
--                   is part of the service, and the calls and log lines come as a trace
--   Queue           core/utils/persistent_queue.ts: `PersistentQueue`; the store is a list in the
--                   order of the keys
--   Tasks           core/utils/background_task_manager.ts: `BackgroundTaskManager`, with the
--                   runtime's intervals as part of the state
--   Ledger          domain/analysis/ledger_service.ts: `commit` and `syncEntry`
--   Repository      infrastructure/persistence/repositories/kv_repository.ts, and the interface that
--                   its clients take (domain/repositories/session_repository.ts) with its laws
--   Session         domain/identity/session.ts: `SessionService`, over that interface
--   ApiKeys         domain/identity/api_keys.ts: `ApiKeysService`, over two such repositories, with
--                   Validation's comparison of secrets
--   Service         core/base_service.ts: the guarded `init` of `BaseService`
--   Validation      infrastructure/system/validation.ts: `secureCompareBytes` and `secureCompare`; in
--                   Addresses `isPrivateIp`, `isPrivateIpv6` and `expandIpv6` on lists of code units;
--                   in Webhook `isValidWebhookUrl` and `validateWebhookUrlAsync`, with the URL parser,
--                   the resolver and the test against `IP_REGEX` as parameters
--   ShadowBan       domain/protection/shadow_ban.ts: `ShadowBanService`, with the commands that ran
--   Bloom           core/cache.ts: `BloomFilter`
--   BoundedMap      core/utils/collections.ts: the class `BoundedMap`, its nodes in a store that maps
--                   their numbers to their fields
--   Gossip          domain/orchestration/mesh/gossip_manager.ts: `broadcast`, with Bloom as its
--                   filter, and a CircuitBreaker and Retry for each node
--
-- Paths are relative to the repository's src/orchestrator. The module Common has the names and lemmas
-- they share; the children of a component's module hold its proofs, and its child Tests the examples.
--
-- How the code is rendered: an object with fields is a record that an operation takes and returns; an
-- exception is the `err` of a Result, `undefined` and `null` are the `none` of an Option; Date.now()
-- and random words are arguments. Times, counts and priorities are natural numbers. Awaited calls
-- between which other calls can run are separate steps (the write of the rate limiter, the attempts
-- to record a vote, the stretches of the audit queue between its awaits, the two halves of its flushes and
-- commits and the three parts of a `syncEvents`, which the relation `History` of Audit takes in any
-- order). SHA-256, the TPM and the regular expressions are parameters of the definitions that use them,
-- and what a theorem asks of them is a hypothesis of it.
--
-- Fuel: `levels` of Merkle halves a level in each round and has as much fuel as the level has leaves;
-- that this is enough is a theorem, as is the length of a proof. The number of attempts of Retry and
-- of a vote is the code's own bound. `sanitize` of Audit recurs on the levels that its depth leaves, so
-- that it ends on objects that contain themselves; `set_chunks` of Timeline has as much fuel as there
-- are items, which its theorem shows to be enough.
--
-- Not modelled: log messages, but for those of Registry; storage, network, firewall and process adapters (infrastructure), which
-- only pass calls on; the web interface, the tools and the agents in Rust. The parts of the domain
-- that are not in the list above are listed with the reason in the manifest.
pub mod Common
pub mod ApiKeys
pub mod Audit
pub mod AuditVerifier
pub mod Bloom
pub mod BoundedMap
pub mod Canonical
pub mod CircuitBreaker
pub mod Gossip
pub mod Ledger
pub mod Merkle
pub mod Policy
pub mod Queue
pub mod Quorum
pub mod RateLimit
pub mod Registry
pub mod Repository
pub mod Retry
pub mod Service
pub mod Session
pub mod ShadowBan
pub mod Tasks
pub mod Timeline
pub mod Validation
pub mod Values
