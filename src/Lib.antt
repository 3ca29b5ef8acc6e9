-- ===== src/Lib.antt =====
-- Verification of the private-bond audit replay of graph-privacy-showcase-demos: the Rust crate in
-- items/01-private-bond-replay/src/replay, which fetches the anchor log of a bond through a gateway, verifies
-- the attestation of the answer, reconciles the log with the records that an issuer disclosed and with
-- the chain, and checks that tampering is noticed.
--
-- The parts and their files, whose paths start at that folder. A function of the crate keeps its name; a
-- loop or a branch of a long function is a function of its own, composed as the source composes it.
--   Field            src/field.rs, src/poseidon.rs: field elements as text, and the hashes. `Field/Codec` states
--                    what the crates promise, `Field/Roundtrip` what the texts mean.
--   Merkle           src/merkle.rs: the root of a log and its history. `Spec` is the tree from the top,
--                    `Binding` and `History` say what a root binds.
--   Json             the calls into serde_json, as an interface.
--   Anchors          src/anchors.rs: `Query` writes the query, `Parse` reads an answer, `Ordered` puts the
--                    commitments and the call boundaries in order.
--   Records          src/records.rs: the manifest and the disclosed records; `Manifest` loads them from a disk.
--   Attestation      src/attestation.rs: `Offline` verifies a bundle, `Signer` resolves its signer, `Domain` and
--                    `Means` are its defaults.
--   Reconcile        src/reconcile.rs: `Checks` has the loops and `Run` the function `reconcile`, `Scope` the notes of
--                    every report; `Accounting`, `Verdict`, `Soundness`, `Complete` and `Tampering` are its theory.
--   Onchain          src/onchain.rs: the reader of the contract; `reconcile` takes two of its calls as an interface.
--   Consistency      src/consistency.rs: agreement of several answers, and the number of parties.
--   Tamper           src/tamper.rs: the alterations, each with what it changes.
--   Fixtures         src/fixtures.rs: `Generate` builds the seed fixtures and `Write` writes them; `Made` and `Whole`
--                    say what is built, `Spent`, `Loaded`, `Reconciled` and `Written` what it is good for.
--   Gateway          src/gateway.rs: requests, URLs and `fetch`.
--   MockGateway      src/mock_gateway.rs: the gateway of demos and tests; `Answer` has its handlers and `Stub` that of
--                    the subgraph stub, `Served`, `Client` and `Resolves` what the client gets from them.
--                    `Program` has the gateway of src/bin/mock-gateway.rs, and `Forwards` what it answers. The random
--                    keys are arguments.
--   Session          src/main.rs: `Audit` has the audits of the commands `reconcile` and `tamper`, `Tripwires` the
--                    command `tamper`, `Sampling` the loops that collect answers, `Commands` the commands `fetch`,
--                    `verify-attestation` and `consistency`, `Seed` the command `seed-fixtures`, `Output` what they
--                    write, and `Program` the command `reconcile`, `run` and `main`. `Outcome`, `Altered`, `Verified`,
--                    `Exit`, `Listing`, `Listed`, `Compared`, `Caught` and `Tampered` say what the commands establish, `Success` what the
--                    exit code does.
--   Tests            a small world in which each theorem is applied.
-- `Common` holds the shared types and lemmas: results, text, ordered maps, and computations over a world.
--
-- How the parts are modelled. A `Result` is a value or a named error with the values that its message
-- shows; a panic is an error. A sentence of a report is a constructor with the values that it shows, and
-- two sentences of one place are two constructors. Text is a list of code points; the functions of `str` that
-- the crate calls are written out, `to_lowercase` for ASCII only. A `BTreeMap` is the list of its entries in
-- the order of their keys. A number of 64 bits wraps where the source uses `wrapping_add`, and in
-- `generate_with_maturity`, which the scripts run in a release build. Asynchronous
-- code takes the world and returns the world after it, so that the network may answer every call differently. The
-- reads of the chain by `reconcile`, `open_chain` and `cmd_tamper` are the exception: the reader asks for the latest
-- block at each call, and in the model a run sees one function from questions to answers. `GatewayClient::new` is
-- modelled where its HTTP client can be built.
--
-- Fuel. The loop of `build_merkle_root` has the number of leaves as fuel, which exceeds the number of levels; that
-- it never runs out is a part of the results on trees. `trim_start_matches` has the length of the text, and
-- `decimal` the number itself plus one.
--
-- What is a parameter: the field arithmetic, Poseidon, `hex`, `serde_json`, Keccak and the signatures of
-- thegraph-core, the HTTP client, the file system, and the node of the chain. What the results need of them
-- stands in the records `FieldLaws`, `CreateLaws`, `StoreLaws` and `ServerLaws`, of which the tests have instances.
--
-- What is not modelled: printing to the terminal, the parsing of arguments, the sockets of the mock gateway and
-- the routing of its URLs, the contracts, the subgraphs, and the second demo (items/02-encrypted-anchoring),
-- which is TypeScript.
pub mod Common
pub mod Field
pub mod Merkle
pub mod Json
pub mod Anchors
pub mod Records
pub mod Attestation
pub mod Reconcile
pub mod Consistency
pub mod Tamper
pub mod Fixtures
pub mod Gateway
pub mod MockGateway
pub mod Onchain
pub mod Session
pub mod Tests
