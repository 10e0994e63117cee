-- ===== src/Lib.antt =====
-- A model of the Circuit ORAM crate and proofs of its correctness.
--
-- The program keeps a fixed number of logical blocks in a binary tree of buckets that an untrusted
-- host stores, and moves a block to a fresh random path at each access. A bucket has a page of
-- metadata and a page of payloads, in two stores. The trusted controller holds the position map, a
-- stash of fixed size, a random number generator and a public schedule of evictions. All choices on
-- secret data are made by masked moves.
--
-- Files, by the part of the repository that they model:
--   Outcome: src/error.rs. A fallible function returns `Result`; one with `&mut self` is a function
--     of the state that returns the result and the state it leaves (Outcome/Stateful).
--   Ct: src/ct.rs, over the crate `subtle`, which is the parameter `Subtle` with its laws.
--   Params: src/params.rs; the numbering of the nodes is in Params/Geometry.
--   Schedule: `CircuitEvictionSchedule` and `reverse_bits_mod` of src/circuit.rs.
--   Block: src/block.rs. Meta and Payload: the two halves of a bucket of src/circuit.rs.
--   PosMap, Stash, Select, Overlay, Evict: the scans of src/circuit.rs over the position map, the
--     stash, the slots of a path, the pages of several paths, and the candidates of an eviction.
--   Store: src/store.rs. The traits are records with the laws that a client relies on
--     (`PageStore`, `PathPageStore`; `BatchPageStore` is a page store with its bulk methods, which it
--     may override); Store/Default has their default bodies, Store/Blanket the implementation of
--     paths by pages, Store/Mem `MemPageStore`, and Store/Cached
--     `FrontCachedPageStore`, which keeps the first pages of a store in memory.
--   Controller: `CircuitOram` of src/circuit.rs, one access at a time; Controller/Batch its
--     operations on several paths. The generator is the parameter `Rng`.
--   Merkle: the hashes of src/merkle.rs, over the parameter `Sha256`. Merkle/Full is
--     `MerklePageStore` and Merkle/Tree its loops over the hashes; Merkle/Tiered is
--     `TieredMerklePageStore`, Merkle/Tiered/Rebuild its `build` and Merkle/Tiered/Open its
--     `from_trusted_state`. Both run over any stores with the operations of a page store,
--     `PageOperations`: it has no laws, so a store may answer with any bytes.
--   Cuckoo: the header and the sizes of a table file of src/cuckoo.rs; Cuckoo/Reader cuts it to
--     packed blocks and bins, Cuckoo/Source is the source of a build, and Cuckoo/Circuit and
--     Cuckoo/Bins read bins through a controller. A file is the list of its bytes.
--   Build: the trusted build and the checks on opening, of src/circuit.rs.
--   Memory: the abstract view of a controller. A tree of buckets, a stash and a position map are a
--     memory for `values` if each id in range has one block with its value, in the stash or in a
--     bucket on the path of its leaf. Controller/Invariant says that the stores hold such a tree.
--   Base: lists, sums, bits, words and bytes. Tests: the theorems at concrete inputs.
--
-- Numbers are natural numbers; sums and products of `u64` counters carry their overflow checks.
-- The masks of src/ct.rs, the shifts of `node_index` and `reverse_bits_mod`, and the products of
-- `with_stash_capacity`, src/cuckoo.rs and the leaf base of src/merkle.rs wrap around as in a
-- release build. There debug assertions are off too, and they are no part of the definitions. A
-- list that is longer than a machine can hold has no counterpart in the program. Loops run over
-- lists or count down. Those of src/merkle.rs that halve a node up to the root have the node and
-- one for fuel, which a node that halves cannot use up. `leaf_bits` reads a word of 64 bits. An
-- index out of range or an `expect` on nothing is the error `panicked`. The closure of an access
-- is a function of the payload.
--
-- Not modelled: stores on files, the bulk methods of the store that keeps its first pages in memory,
-- the tracing store, encryption (src/aead.rs), the embedded tree (src/embedded_tree.rs), the direct
-- tables (src/direct.rs), labels and size estimates of cuckoo tables, state files (src/state.rs), the
-- simulations (src/stress.rs, src/ring_stress.rs) and the command line (src/bin/oramctl.rs); `flush`
-- of the Merkle stores, which passes the call on. What an observer learns from the pages requested,
-- and timing, are outside the model. The laws of a store leave out failures of I/O.
pub mod Base
pub mod Outcome
pub mod Ct
pub mod Cuckoo
pub mod Params
pub mod Schedule
pub mod Block
pub mod Merkle
pub mod Meta
pub mod Payload
pub mod PosMap
pub mod Stash
pub mod Select
pub mod Store
pub mod Overlay
pub mod Evict
pub mod Memory
pub mod Controller
pub mod Build
pub mod Tests
