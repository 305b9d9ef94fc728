-- ===== src/Lib.antt =====
-- toocal: a key-value store in one file. A B-tree of items stands on fixed-size pages, and a free
-- list hands the pages out.
--
-- The parts, from the bottom up, and the file that models each:
-- * core/utils.cpp (Utils): the comparisons of keys and of strings, and the size of a file. `bytescmp`
--   orders every search.
-- * core/errors.hpp (Effects): the error class and the end of the process; core/types.hpp (Types): the
--   general serializer.
-- * core/freelist.h, core/freelist.cpp (Freelist): the page allocator, a state with `get_next_page`
--   and `release_page`, and its page image.
-- * core/meta.h (Meta): the meta page.
-- * core/node.h, core/node.cpp (Node): items and nodes in memory, and the rotations;
--   Node/Serializer has the slotted page of `Serializer<Node>`.
-- * core/data_access_layer.h, core/data_access_layer.cpp (Dal): the store. It owns the stream
--   (Dal/Fstream), the meta and the free list, and reads and writes pages and nodes. `open_database`
--   is its constructor.
-- * core/node.cpp, the methods that go to the store (Tree): the descent to a key, the split, the
--   removal from a leaf and from an inner node, the merge and the rebalancing.
-- * core/collection.h, core/collection.cpp (Collection): `find`, `put` and `remove` on the tree below
--   a root page.
-- * cli/main.cpp (CommandLine): the program, four loops on a collection.
-- A function keeps its name; `_split_when_node_is_leaf` and the like lose the leading underscore,
-- `Item::size` is `item_bytes`, and a loop is a function of its own, named above it. `put`, `find` and
-- `remove` call the store, and the store calls the serializers and the free list, as in the source.
--
-- A method that changes an object and may fail is a function from a state to an Outcome (Effects): a
-- value and the new state, an error (`tl::unexpected`), the end of the process (`panic`), an access
-- out of bounds, or too little fuel. An error that a caller drops is dropped by `attempt`.
--
-- Machine integers: `uint8_t`, `uint16_t`, `uint32_t` and `uint64_t` wrap where the source computes with
-- them (`u8` to `u64`). The indices of items and children are not wrapped: a page holds at most 65535
-- items. A `float` threshold is a mantissa and a negative power of two (Dal/Threshold); the products
-- are those of the `float`s where the page size is a power of two and node sizes are below 2^24.
--
-- Fuel: the descents (`find_key_helper`, `rightmost_leaf`) go down one level of the tree for each unit,
-- so one unit more than its height is enough.
--
-- Around the definitions: Tree/Shape says which tree of nodes the pages of a store hold, Tree/Order what
-- a search is on its items in order. Tree/Update changes the leaf on the way to a key, and
-- Tree/Insertion, Tree/Deletion and Tree/PutBack are what it does to the items; Tree/SplitParts and
-- Tree/WaySplit split a node on the way. Tree/Descent, Tree/LeafSearch and Tree/Placement follow the way
-- in a store, and Collection/LeafWrite writes its leaf. Tree/InnerSite is the way to an inner node that
-- has the key, with Tree/InnerWay, Tree/InnerSearch, Tree/InnerPlacement and Tree/InnerDeletion for its
-- steps, its store and its items. Collection/Inserting and Collection/Removing list the cases.
-- Dal/Pages and Dal/Nodes read and write the store as a map from page numbers to bytes and to nodes.
-- Freelist/Steps has the sequences of the allocator's operations. Tests has runs of the database and
-- the platform that the examples in Tests/ use.
--
-- A node fits its page (IsStorable in Node/Serializer/RoundTrip) where its keys and values have at most
-- 255 bytes, the page numbers of its children 64 bits, it has no children or one more than items, and
-- its layout is shorter than the image, which has at most 64 KiB.
--
-- Parameters: the endian library and the page size of the operating system are the record Platform,
-- whose laws say that `encode` writes the bytes of a number, the low one first, and that `decode`
-- reads them. `std::fstream` is a sequence of bytes with the fail bit, which no call clears, and with
-- a size up to which the file may grow; the only failures are those. In `put` the read behind the last
-- item of a node is an arbitrary byte string. `fmt::format` gives the keys and the values of the program,
-- and `stat` the size of its file. Whether `char` is signed is a parameter of `memcmp`.
--
-- Not modelled: a node's `dal` pointer (there is one store); the creation of the file and its
-- directories, which `open_database` takes as its inputs, and its removal; the texts of errors, the log
-- and the clock; core/page.cpp, a call of the operating system; tests/, which are drivers; libs/endian,
-- a copy of another project.
pub mod Prelude
pub mod Platform
pub mod Effects
pub mod Streams
pub mod Utils
pub mod Freelist
pub mod Meta
pub mod Node
pub mod Dal
pub mod Tree
pub mod Collection
pub mod Types
pub mod CommandLine
mod Tests
