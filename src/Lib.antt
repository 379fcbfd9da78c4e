-- ===== src/Lib.antt =====
-- Verification of the lake tools of yataverse-distribution (the Python files under deploy/). They
-- keep a lake of content-addressed blocks: a dated inventory lists the CID and size of every
-- block, CAR files carry ranges of it between hosts, a reader serves its pages and blocks, and
-- replication and readback walk over it.
--
-- Prelude: lists and tests over native numbers, results of fallible code, byte strings, bit masks.
-- Prelude/Actions is a state monad whose state outlives an error, with rules for what an action
-- keeps.
--
-- Json: what the code uses of parsed JSON.
--
-- Car: deploy/carv2_zstd.py. Car/Stream is the pair of file objects and the counter `written` as a
-- state monad; Car/Varint the variable-length integers; Car/Copy is `copy_carv1_payload`;
-- Car/Index is `encode_index` and `carv2_header`; Car/Archive is the file that `pack` builds
-- before compression, and `validate_carv2`; Car/Zstd is `pack` and `unpack` over their files,
-- where the zstd command is a pair of functions.
--
-- Inventory: class `Inventory` of deploy/serve_lake.py. A file is the list of its lines.
--
-- Router: deploy/router_standby.py. The commands to the router and its answers are explicit; the
-- decision, the counter file, the opt-in and the cutover are functions of them.
--
-- RawStore: the CID check of deploy/raw_block_store.py. A CID is the list of its character codes.
-- RawStore/Store is `read` and `put` over the two files of a CID.
--
-- Receipts: class `CarReceipts` of deploy/serve_lake.py. Receipts/Merge is about the merged
-- ranges, Receipts/Covers about a refresh and the question of a row.
--
-- LocalBlocks: class `LocalBlocks` of deploy/serve_lake.py, which reads a block from the raw store
-- or from Kubo; RawStore and Receipts are its parts. Epochs: `EpochInventory` and `EpochBlocks`.
-- Handler: `handler_for`, a run of it is a list of events of the threads, in any order; a request
-- target that `urlsplit` refuses is one of the requests.
--
-- Replicate: deploy/replicate_lake.py. The checkpoint and the listing checks; Replicate/Prefetch
-- is `prefetch_ordered` as the list of what it starts and yields; Replicate/Put is the per-block
-- work of `KuboRPC` over an interface `Rpc` of requests, which may change the daemon and may
-- raise; Replicate/Batch is `run_batch`, where a `World` holds the daemon, the pins, the raw
-- store, the saved checkpoint and the receipts, and keeps its changes when the batch raises. A
-- block that Kubo refuses to decode goes to RawStore.Store.put. Replicate/Migration is
-- `prepare_listing_state`, over the files as they stand: the move to a local inventory, and from
-- one to the next. Replicate/Sources is the fetch from the primary source with its fallback, and
-- from a peer.
--
-- Audit: deploy/audit_lake.py. `audit_inventory` counts the rows by where their blocks are;
-- Audit/Rows says what the counters count. Audit/Roots is `audit_receipts`, and
-- Audit/Roots/Evidence what its marks rest on. It reads inventories by Inventory.rows, and raw
-- blocks by RawStore.Store.read.
--
-- Ship: deploy/ship_lake_car.py. `selected_rows` chooses the rows of a CAR file from the lines of
-- the inventory, and Ship/Rows is about its choice. Ship/Checks has what a round checks of its
-- arguments, files and receipts; Ship/Once is `ship_once` without an S3 destination, over an
-- interface `Hosts` of commands, and keeps what was changed when it raises. Ship/Once/Evidence is
-- about the checkpoint; the choice of Ship/Rows is a part of it.
--
-- Readback: `advance` of deploy/verify_lake_leaves.py, one batch over the rows behind the
-- checkpoint. Readback/Checkpoint is `load_state` and the run in `main`, Readback/Resume is about
-- the file behind it, and Readback/Blocks is the reader `OfflineBlocks`, which reads
-- RawStore.Store before it asks Kubo.
--
-- Tests: runs at concrete inputs.
--
-- SHA-256, the JSON parser, the base-32 decoder, the block reader of a readback batch, the
-- commands of a shipping round, and for a replication batch the daemon, the listing, the block
-- source and the free disk space, are parameters; so are the decimal digits of Unicode, the
-- base-64 payload of a public cursor and the decimal text of a number. The loops that Python runs
-- until a condition holds run on fuel: the copy has one round for each declared byte, which is
-- enough since a frame takes two bytes at least; a read has one round for each byte asked for.
-- Python raises where the model returns `err`.
--
-- Not modelled: argument parsing, HTTP and subprocess input and output, and the files in other
-- languages (.cljk, .mjs, .sh, service files).
pub mod Audit
pub mod Car
pub mod Epochs
pub mod Handler
pub mod Inventory
pub mod Json
pub mod LocalBlocks
pub mod Prelude
pub mod RawStore
pub mod Readback
pub mod Receipts
pub mod Replicate
pub mod Router
pub mod Ship
pub mod Tests
