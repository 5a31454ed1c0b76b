-- ===== src/Lib.antt =====
-- A model of the core of br-rust-common, the shared Rust crates of the platform's services, with
-- the theorems that make it correct.
--
-- The program's parts. A service declares the permission scopes it knows (crates/br-core-scope);
-- the identity service judges each declaration against its registry of scopes
-- (crates/br-identity-domain). Services talk over NATS by coordinates (crates/br-core-integration,
-- crates/br-util-nats-fabric): coordinates are rendered as subjects and parsed again, an event is
-- staged in an outbox table and a relay publishes the pending rows, a durable consumer reads the
-- messages and recovers from errors of the stream, and a key/value store is reconciled with the
-- entries that are wanted, and projected into a sink by a loop that a supervisor keeps running. A
-- service boots from its environment (crates/br-util-boot), prepares its database
-- (crates/br-util-postgres), declares its scopes before it is ready
-- (crates/br-util-scope-declaration, crates/br-util-axum-readiness), admits requests with a passport
-- (crates/br-core-auth, crates/br-util-axum-auth), keeps a directory of users and groups
-- (crates/br-core-directory, crates/br-util-directory), and answers with affordances and localized
-- texts (crates/br-util-graphql, crates/br-core-values).
--
-- Which file models which part:
--   Base        what the others share: Boolean tests on the native numbers, lists, `Result`,
--               texts as lists of bytes, `str::split` and `str::trim`, `BTreeMap`.
--   Scope       crates/br-core-scope/src: ServiceKey (service.rs), ScopeKey (key.rs), Error
--               (error.rs), Spec (spec.rs), Declaration (declaration.rs), Raw (raw.rs), Messages
--               (messages.rs). A function `new` is the constructor `new` of its type.
--   Registry    crates/br-identity-domain/src: Service (service.rs, identity.rs), Event (event.rs,
--               error.rs), State (registry.rs), Handler (handler.rs). `&mut self` is the registry
--               before and the registry after; the loops of `hydrate` and `register_declaration`
--               are functions of their own, in the order of the code.
--   Coords      crates/br-core-integration/src/coords: one record for the four newtypes of the
--               macro, indexed by the literal it is called with.
--   Fabric      crates/br-util-nats-fabric/src: Error (error.rs, fabric/outcome.rs), Decimal and
--               Subject (coords), Coverage (consumer/coverage.rs), Consumer.Backoff,
--               Consumer.Recovery, Consumer.Run (consumer), and of kv: Key (key.rs), Reconcile
--               (reconcile.rs), Orphans (reconcile_ops.rs), Store (codec.rs, scan.rs and
--               scan_passing of consumer.rs), Publisher (publisher.rs, revision.rs), Projection
--               (consumer.rs, sink.rs), Supervisor (supervisor.rs, health.rs, progress.rs).
--   Outbox      Retry and Status: crates/br-core-integration/src/outbox. Report, MessageId, Table,
--               Relay: crates/br-util-nats-fabric/src/outbox (report.rs, driver.rs, msg_id.rs,
--               store.rs, relay.rs).
--   App         crates/br-identity-app/src: Error (error.rs, conflict.rs), Hydration (hydration.rs),
--               Pipeline (pipeline.rs, and handle_delivery of consumer.rs). The repository and the
--               publisher are an interface that the pipeline takes.
--   Auth        crates/br-core-auth/src: Method (auth_method.rs), Passport (passport.rs, claims.rs),
--               Cookie (session_cookie.rs), Bearer (bearer_token.rs), Admit (header.rs, error.rs,
--               and crates/br-util-axum-auth/src). Actor is crates/br-core-kernel/src, Metadata
--               crates/br-core-events/src/metadata.rs.
--   Boot        crates/br-util-boot/src: Environment (environment.rs, error.rs), Url
--               (database_url.rs, nats_url.rs), Reader and BootEnv (boot_env.rs).
--   Postgres    crates/br-util-postgres/src: Role (role.rs, role_password.rs, grant.rs), Retry
--               (catalog_retry.rs), Net (net.rs), Migrations (migrations.rs).
--   Handshake   Declare: crates/br-util-scope-declaration/src; Readiness:
--               crates/br-util-axum-readiness/src.
--   Directory   crates/br-core-directory/src: Keys, Meta, User (user.rs, flatten.rs, error.rs), Group
--               (group.rs, service_account.rs). crates/br-util-directory/src/consumer: Snapshot,
--               Ledger, Health.
--   Values      crates/br-core-values/src/localized. Graphql: crates/br-util-graphql/src.
-- Beneath a module, Laws and the modules named for a subject hold the proofs; Tests holds runs on
-- small inputs.
--
-- How it is modelled. A text is the list of its UTF-8 bytes, and a length is a number of bytes; the
-- tests on `char` are tests on bytes, which agree because every byte of a character outside ASCII
-- is outside the classes that are tested. A `HashSet`, a `BTreeMap` or a `BTreeSet` is a list; where
-- the order of a map matters it is sorted. A
-- number of a fixed width is a native number with its wrap-around or its saturation written out. A
-- panic is `none`. A `Uuid` is the number of its 128 bits. A `Duration` is a number of milliseconds
-- in Outbox and of nanoseconds in Fabric.Consumer. An async call runs to its end where it is
-- awaited. The outbox table is the list of its rows in the order of their ids, read by one relay.
-- What the relay and the consumer call (the broker, the clock, the decoder, the handler, the JSON
-- and UUID parsers) are arguments with a state of their own; a source of messages is the list of
-- what it will give. JetStream's key/value store, a projection's sink and the codecs are interfaces,
-- with what they promise as named laws; the tests fill each with a small one that keeps them. A scan
-- reads the store in one state: another writer during a scan is not modelled. The watch gives what
-- is written after it subscribed, so what is written between the scan and then is missed, as in the
-- code. The health of the directory's projector is changed under a lock and sent after it; the two
-- parts are steps of their own. The supervisor is a relation of steps. The handshake runs over the list of
-- what each of its turns is answered.
--
-- Bounds. The relay's loop runs for at most the messages that its policy allows, as in the code;
-- the consumer's loop and the recovery run over the lists of what the source gives, and end as
-- `still_running` or `waiting` when the list does; the pipeline tries five times, as in the code.
-- The retry on the catalog has the six attempts of the code as its fuel, which is enough, since the
-- code stops there; `trim` drops at most as many characters as the text has bytes. No other fuel is
-- used.
--
-- Not modelled: serde and its attributes, Display, logging, errors of SQL and rows that another
-- transaction has locked, the connection to NATS and JetStream's own state; the parsers of URLs,
-- addresses, ports, UUIDs and JSON, SHA-256, SCRAM and base64 (arguments); codes of currencies and
-- countries, which need the upper case of any character; DSNs and TLS; the sinks and the
-- configuration of the directory; the SQL of the identity application's repository; observability, broadcast and
-- the helpers of tests, which hold no core logic.
pub mod Base
pub mod Scope
pub mod Registry
pub mod Coords
pub mod Fabric
pub mod Outbox
pub mod App
pub mod Auth
pub mod Handshake
pub mod Values
pub mod Graphql
pub mod Boot
pub mod Directory
pub mod Postgres
