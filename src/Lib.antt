-- ===== src/Lib.antt =====
-- deadmkt-node: a trading node of a decentralized exchange that trades in batches. Traders commit
-- to hashes of orders over gossip, reveal the orders, every node computes the same matches from
-- them, and the matches are settled on a chain against escrowed balances.
--
-- The parts, the modules that model them, and the code:
--   Crypto        crates/crypto/src/lib.rs: the bytes that are hashed and signed. SHA-256, BCS and
--                 Ed25519 are third-party and are the fields of the record Libraries.
--   Chain         crates/chain/src/batch.rs (and BatchParams, BatchEpoch of types.rs): batch numbers
--                 and phases from block heights, parameter changes, pool assignment. A division by
--                 zero, which panics, is none. Pubkeys is the cache of public keys of pubkey.rs on
--                 the table of crates/storage/src/lib.rs; what the chain answers and whether the
--                 table can be read and written are arguments.
--   Matching      crates/matching/src/lib.rs: Defs has the loop of generate_matches, with its
--                 indices as the rest of each book, and Run has sort_orders and run_matching. The
--                 loop runs on fuel: each round shortens a book or finishes an order, so that the
--                 number of orders in both books is enough (Rounds).
--   Gossip        crates/gossip_validation/src/lib.rs: Quota is the CommitQuotaTracker, Validator
--                 the GossipValidator. The three provider traits are a record of functions.
--   Inbound       the GossipValidator of src/run.rs, a filter that stands before the main loop.
--   BatchState    crates/batch_state/src/lib.rs: commits, reveals and matches of the batch, which
--                 calls Matching and Gossip.Quota.
--   Escrow        crates/escrow_tracker/src: Defs has the projected balances of lib.rs, and
--                 IsActiveCache the cache of is_active_cache.rs with the clock as an argument.
--   Settlement    crates/settlement/src: Defs and Pending are the SettlementManager, whose field
--                 tracker is the Escrow tracker that it shares with the main loop; Codes and Status
--                 read abort codes, Transactions and Submitter build and send transactions, and
--                 log the calls that go to the chain, Worker is the loop of worker.rs on a list of
--                 requests, each with what the chain answers and with whether the channel of the
--                 results is open; what the tasks that it spawns send is kept apart, since it may
--                 come between any later results. BCS, SHA3 and Ed25519 are the fields of the record
--                 Codec, hex is an argument. Swap is the loop of the swap phase in src/run.rs, which
--                 registers the matches of a batch and queues them for the worker; the clock and the
--                 room in the channel are given for each match.
--   Strategy      crates/strategy/src/convert.rs: decimal texts, conversion and validation of the
--                 orders of a strategy. The nonces of the random generator are an argument. Commit
--                 is convert_strategy_orders of src/run.rs, which reads the balances of the Escrow
--                 tracker, validates, and signs by Crypto.
--   Orchestrator  crates/orchestrator/src/lib.rs on the ports that src/run.rs gives it (Bridges):
--                 it collects the orders of a batch and calls Matching, whose matches the main loop
--                 takes to Settlement. The BCS decoder is an argument; a panic of the ports is none.
--   Config        crates/config/src/lib.rs: defaults, overrides and validation, with the
--                 environment as a function.
--   Text          the operations of str that the source uses, on lists of code points.
--   Poller        crates/chain/src/poller.rs: the loop on a list of ledger readings, whose length is
--                 the bound max_polls; a send to a closed channel is ignored, as in the code.
--   NodeState     crates/node_state/src/lib.rs: the life cycle of the node.
--   GasManager    crates/gas_manager/src/lib.rs: the gas balance and its thresholds.
--   Prelude, Sort, Maps, Bytes   what these share: tests, lists, loops on fuel, 64-bit arithmetic, a
--                 stable insertion sort in place of the library's stable sort, maps as association
--                 lists whose order stands for the unspecified order of a HashMap, and byte strings.
--   Tests         concrete inputs.
--
-- A method with &mut self is a function that returns the new value beside the result. Integers are
-- natural numbers, and where the code can pass 64 bits the wrap-around of a release build is written
-- out. Log lines and the texts of errors are left out. Not modelled: the main loop but for its
-- filter, its bridges, its swap phase and its conversion of a strategy's orders, the strategy server,
-- the chain client, storage but for the table of keys, keystore and setup, which are network, file
-- and database I/O for the most part, or wait for a model.
pub mod Prelude
pub mod Sort
pub mod Maps
pub mod Bytes
pub mod Crypto
pub mod Chain
pub mod Matching
pub mod Gossip
pub mod NodeState
pub mod GasManager
pub mod Escrow
pub mod BatchState
pub mod Inbound
pub mod Poller
pub mod Text
pub mod Settlement
pub mod Strategy
pub mod Orchestrator
pub mod Config
pub mod Tests
