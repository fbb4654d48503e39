-- ===== src/Lib.antt =====
-- A model of the traffic core of way-balancer, a load balancer written in Rust: which endpoints a
-- cluster has, which of them may receive traffic, and how calls to them are timed, retried and cut
-- off.
--
-- The parts and the files that model them:
--   * Base: lists, results, ordered maps (`BTreeMap`), texts as lists of code points, and the
--     arithmetic of machine words, where wrapping and saturation are written out.
--   * Address: the addresses of std::net, and `canonicalize_ip` of crates/net-core/src/lib.rs.
--   * Upstream: crates/net-core/src/upstream.rs. `UpstreamCluster::new` is `new_cluster`, `state` is
--     `cluster_state`; the other methods keep their names. A method on `&mut self` returns the
--     cluster with its result. Validation is about what the constructors accept, Clusters about
--     what a cluster finds.
--   * Registry: `EndpointRegistry` of crates/runtime/src/upstream_registry.rs. Each method holds one
--     lock throughout, so a method is one function and a history of calls is a list. Consistency
--     has its invariant, Lookup what is found after each call.
--   * Health: crates/runtime/src/upstream_health.rs. Warmup has the slow-start weight, Record the
--     record of one endpoint under signals and time, Budget the limit on ejections, Tracking the
--     registry that combines records with an `EndpointRegistry`, and Queries what callers read from
--     it. Below Tracking, Agreement is about topology and records together, Validity about each
--     record, Runs about histories, and Ejections about the limit. `note` stands for the four methods that
--     note a success or a failure.
--   * Failure: crates/runtime/src/failure_management.rs. Timeout, Retry and Breaker are its parts,
--     Manager is `FailureManager`, which composes them; below it, Projection splits a history of its
--     calls into those of its parts.
--   * Lifecycle: crates/runtime/src/lifecycle.rs.
--   * Balancer: crates/runtime/src/upstream_balancer.rs, the selection among the candidates of Health.
--     RoundRobin, Weighted and PowerOfTwo are the algorithms, Locality and Affinity the preferences;
--     Eligible and Sticky are the parts of `select_endpoint`, which Selection puts together. Below
--     Weighted, Turns to Charges are about one turn, Fairness to Rounds about many. A pick is
--     an option, none where the source would index out of range. `Views` holds what the health
--     registry is at each query of a selection, since other calls may come in between. `score` is
--     the affinity score, which rests on the hash and the logarithm of the standard library.
--   * Overload: crates/runtime/src/overload_management.rs. Brownout has the features that are turned
--     off under pressure, Manager the `OverloadManager`. `decide` takes two locks; `between` is what
--     other calls do to the manager between them. Window is about the samples, History about
--     sequences of signals, Shedding about what a greater pressure refuses.
--   * Hedging: crates/runtime/src/hedging.rs. The results of the attempts, and when the asynchronous
--     runtime sees them finish (`Timing`), are arguments; Winner is about the answer.
--   * Guards: crates/runtime/src/source_guards.rs. Keys is about the keys of sources, Tracker has the
--     connections of each source, Handshakes the bound on handshakes, Listener both. tokio's
--     semaphore is an interface, `SemaphoreOps`, with its documented behaviour as `IsSemaphore`.
--   * Limits: crates/runtime/src/local_limits.rs, the keys in the parent, Rate and Concurrency the two
--     limiters. `show_ip` is the text that the standard library gives an address.
--
-- Conventions. An `Instant` or a `Duration` is a number of nanoseconds; `duration_since` and
-- `checked_sub` with their fallback zero are the truncated difference. The start of a breaker or of a
-- budget is time 0. A relaxed counter wraps at 2^64, a saturating operation stops at the greatest
-- value of its type. The fields that Rust types as u8, u16 or u32 are numbers, and a theorem that
-- needs their range says so. Every loop is structural recursion, so there is no fuel. An i64
-- is its distance from the least one, and an f64 its place in the order of `total_cmp`. Three bounds
-- are chosen: 2^56 calls in the history of a retry budget and 2^56 health records, below which the
-- products of the source cannot overflow, and 2^31 for the weights of a cluster together, below which
-- the credits of a round cannot.
--
-- Not modelled: Display texts, logging and the recovery of poisoned locks, which only report; the
-- backend pools of routes and the other parts of crates/runtime/src, and the crates for
-- configuration, HTTP, TLS, administration and Kubernetes. A lock that a method holds makes it
-- atomic; interleavings of calls are the orders of the history. The health registry counts before it
-- takes the lock on its records and reports events after it has released it, so that calls that
-- overlap may order their events otherwise than their changes; the model has both with the call.
pub mod Base
pub mod Address
pub mod Lifecycle
pub mod Failure
pub mod Upstream
pub mod Registry
pub mod Health
pub mod Balancer
pub mod Overload
pub mod Limits
pub mod Guards
pub mod Hedging
