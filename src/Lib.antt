-- ===== src/Lib.antt =====
-- sialite: the storage of an index of the Sia blockchain.
--
-- The program writes the blockchain as a set of files (cache/build.go) and answers queries from
-- them (cache/serve.go). Its index of addresses is an on-disk map of package fastmap, to which
-- an external sort (emsort/emsort.go) hands the records in order. The blocks come from a peer
-- (netlib/netlib.go). A second program (sialite.go) keeps an index of the blocks in memory.
--
-- Files:
--   Base         natural numbers, lists, byte slices, varints, and the results of calls: `Result`
--                for a call that reads, `Outcome` and the monad `M` for one that changes a state.
--   Fastmap      fastmap/fastmap.go and fastmap/multimap.go.
--     Sink         the io.Writers that the writers of fastmap write to, with their replies.
--     Writer       MapWriter: Write and Close. Its child modules relate a state of the writer to the
--                  list of the pages it stands for.
--     Map          Map: OpenMap and Lookup. Search has sort.Search.
--     Inline       NoInliner and FFOOInliner.
--     MultiWriter  MultiMapWriter; MultiMap: the reader MultiMap.
--     Paging       which lists of pages the reader can search.
--     Build        a whole run of the writer, and which records it accepts; RoundTrip: the
--                  writer and the reader together.
--     Values       the lists of values that MultiMapWriter writes and MultiMap reads.
--   Emsort       emsort/emsort.go: the sorter, generic in the state of the wrapped writer.
--     Order, Merge, Final, Runs  lemmas on sorted lists, on the merge, on finalSort, and on the runs
--                in the temporary file.
--     Sorting      a whole sort; Less: BytesLess is an order.
--   Flatedict    flatedict/build.go: the counter of tiles, over any writer of a map and any
--                callback.
--     Runs, Counting  runs of equal tiles, and that the counter writes them; Tiles: Builder.Add.
--   Cache        cache/build.go and cache/serve.go.
--     Server       Server: NewServer on the mapped files, GetItem and GetHistory. The Merkle tree
--                of package merkletree is a parameter. Opened: what NewServer takes over;
--                History: GetHistory.
--     Located      the block locations of cache/build.go, and the search for the block of an item.
--     Builder      Builder: Add and Close over sinks, with the shared buffer `buf`. snappy, the hash and
--                the sorted writer of addresses are parameters. Items: what Add writes for one item,
--                and Loops: its loops as one loop over such items; Entries, Blocks, Whole: one item,
--                one block and all calls of Add; Addresses: the sorter of Emsort as the writer of
--                addresses; Files: what the files hold then.
--     Held         where the items of some blocks stand in the files of a server; Served: GetItem of
--                such a server; Linked: a server on the files of the builder.
--   Netlib       netlib/netlib.go: DownloadBlocks and DownloadAllBlocks, over what the peer answers.
--     Chain, Resume  the blocks of one call, and of all calls.
--   Database     sialite.go: the database of blocks in memory.
--     Types, Store   Database and the types it points to; ID, Value, addSco, addSfo, addSci, addSfi.
--                A pointer to a block or a transaction is a record with its address; a map is the
--                function of its look-ups.
--     Adding       addBlock, loop by loop, and processBlocks; Fetch: fetchBlocks, on Netlib.
--     Outputs      the outputs of a block without a database; Growth, Loops, Claims, Contracts,
--                Known, Transactions, Blocks, Extensions, Process: what each loop adds.
--
-- Errors are values with one constructor for each message of the source; a run-time panic of Go is
-- `panic` or `crash`. An `int` is a natural number where the source only adds lengths, and has its
-- 64 bits written out where a sum can wrap around. Slices are lists; a slice that reaches past the
-- end of another one within its capacity is not modelled, so a prefix is taken to be no longer than
-- the key.
--
-- Loops run on fuel that is the length of what they consume: the search of `sort.Search` on the
-- number of its slots, `count_shared` on the bytes of the keys, `has_special` on the bytes of the
-- values, `merge_loop` on the bytes of the files, `add_loop` on the bytes of the sample.
--
-- sort.Sort and container/heap are modelled by what they promise, with sorted lists, so values
-- that the order does not tell apart may come in another order in Go, and the Swap, Push and Pop
-- of emsort/emsort.go that they call are not translated. An error that the source returns in a
-- message of its own, as emsort and flatedict do for an error of the writer below, is passed on as
-- it is. Numbers read from the files are taken to be below 2^63. Reads of the temporary file of a
-- sort give what was written to it.
--
-- Not modelled: opening and removing the files of the builder and parameters.json; the pages
-- and JSON of the queries on blocks in memory (human.go, handlers.go) and, in
-- flatedict, the heap of the top keys and the choice of a dictionary from the counted tiles; locks,
-- logging, the command line programs, the JSON and HTTP glue and the network connection, which are
-- input and output; and the Sia types, amounts and hashes, which come from other packages.
pub mod Base
pub mod Fastmap
pub mod Emsort
pub mod Flatedict
pub mod Cache
pub mod Netlib
pub mod Database
