-- ===== src/Cache/BuilderTests.antt =====
-- cache/build.go and cache/serve.go on two small blocks.
use sialite.Emsort.{Sorter, new_sorter, add, close_sorter, bytes_less}
use sialite.Emsort.Less.{bytes_less-IsOrder}
use sialite.Cache.Builder.Entries.{Accepts}
use sialite.Cache.Builder.Addresses.{next_sorter, sorter_accepts, new_sorter-good}
use sialite.Base.{
  subst, ℕ, zero, suc, ◌≡◌, refl, List, [], ◌∷◌, ◌++◌, Bytes, length, replicate, map, ltb,
  if◌then◌else◌, M, Outcome, done, fail, too_large_offset, Result, ok, arith,
}
use sialite.Fastmap.Sink.{Sink, buffer, put}
use sialite.Fastmap.Inline.{no_inliner}
use sialite.Cache.Server.{
  Parameters, Files, Server, Item, no_compression, snappy, get_item, get_history, new_server,
}
use sialite.Cache.Builder.{
  Contract, Transaction, MinerPayout, Block, Builder, new_builder, add_block, add_blocks,
}
use sialite.Cache.Builder.Items.{
  Entry, payout_entry, transaction_entry, transaction_hashes, contract_hashes,
}
use sialite.Cache.Builder.Blocks.{
  Stepped, IsWorking, Fits, view_block, view, sizes, stored_size, add_block-Stepped,
}
use sialite.Cache.Builder.Whole.{FitAll, Built, add_blocks-Built}
use sialite.Cache.Server.History.{indices, get_history-served}
use sialite.Fastmap.MultiMap.{multi_lookup}
use sialite.Cache.Served.{get_item-serves}
use sialite.Cache.Linked.{IsEmpty, Suits, built-served}

-- What the sorted addresses go to: a list of records.
abbrev Records : Type 0
Records = List Bytes

abbrev keep : Bytes → M Records ℕ
keep r a = done (length r) (a ++ (r ∷ []))

abbrev close_records : M Records (Unit {0})
close_records a = done tt a

-- The sorter of the addresses.
abbrev write_sorted : Bytes → M (Sorter Records) ℕ
write_sorted = add bytes_less

abbrev close : M (Sorter Records) (Unit {0})
close = close_sorter bytes_less keep close_records

abbrev next : Bytes → Sorter Records → Sorter Records
next = next_sorter bytes_less

abbrev taken : Accepts write_sorted next
taken = sorter_accepts 3 (omega arith) bytes_less bytes_less-IsOrder []

abbrev sorter : Sorter Records
sorter = record {
  tmpfile = buffer;
  out = [];
  mem_limit = 100;
  chunk_size = 3;
  sizes = [];
  vals = [];
}

sorter-eq : new_sorter [] 3 100 buffer ≡ sorter
unfolding new_sorter
sorter-eq = refl

sorter-good : taken.good sorter
sorter-good =
    subst taken.good sorter-eq
      (new_sorter-good 3 (omega arith) bytes_less bytes_less-IsOrder [] 100 buffer refl refl)

abbrev compress : Bytes → Bytes
compress b = 255 ∷ b

abbrev sia_hash : Bytes → Bytes
sia_hash b = length b ∷ []

abbrev first_block : Block
first_block = record {
  header = 9 ∷ 9 ∷ [];
  miner_payouts = record { unlock_hash = 1 ∷ 2 ∷ 3 ∷ []; marshalled = 7 ∷ [] } ∷ [];
  transactions = [];
}

abbrev second_block : Block
second_block = record {
  header = 8 ∷ [];
  miner_payouts = [];
  transactions =
      record {
        siacoin_inputs = (1 ∷ 2 ∷ 3 ∷ []) ∷ [];
        siafund_inputs = [];
        siacoin_outputs = (4 ∷ 5 ∷ 6 ∷ []) ∷ [];
        siafund_outputs = [];
        file_contracts =
            record { valid_proof_outputs = (6 ∷ 6 ∷ 6 ∷ []) ∷ []; missed_proof_outputs = [] } ∷ [];
        file_contract_revisions = [];
        marshalled = 5 ∷ 6 ∷ [];
      }
      ∷ [];
}

abbrev blocks : List Block
blocks = first_block ∷ second_block ∷ []

abbrev start : Builder (Sorter Records)
start = record {
  blockchain = buffer;
  blockchain_len = 0;
  leaves_hashes = buffer;
  headers_file = buffer;
  offsets = buffer;
  offset_index = 0;
  block_locations = buffer;
  addresses = sorter;
  addressestmp = buffer;
  buf = 0 ∷ 0 ∷ 0 ∷ 0 ∷ 0 ∷ 0 ∷ 0 ∷ 0 ∷ [];
  offset_end = 65535;
  offset_len = 2;
  offset_index_len = 1;
  address_record_size = 3;
  address_prefix_len = 2;
}

-- What NewBuilder makes of its parameters.
start-eq : new_builder buffer buffer buffer buffer buffer sorter buffer 2 1 2 ≡ start
unfolding new_builder
start-eq = refl

start-IsWorking : IsWorking compress sia_hash write_sorted close next taken start
unfolding sorter_accepts
start-IsWorking = record {
  ready = record {
    blockchain = refl;
    leaves = refl;
    headers = refl;
    offsets = refl;
    locations = refl;
    eight = omega arith;
    roomy = omega arith;
    double = omega arith;
    sizes = refl;
    short = omega arith;
    short_index = omega arith;
    record_size = refl;
    takes_records = sorter-good;
  };
  counted = refl;
}

second-Fits : Fits compress sia_hash write_sorted close next taken second_block start
unfolding transaction_entry transaction_hashes contract_hashes stored_size
second-Fits = record {
  items = omega arith;
  bytes = omega arith;
  long_payouts = tt;
  long_transactions = ((omega arith, (omega arith, (omega arith, tt))), tt);
}

both-FitAll : FitAll compress sia_hash write_sorted close next taken blocks start
unfolding payout_entry transaction_entry transaction_hashes contract_hashes
both-FitAll = record {
  items = omega arith;
  bytes = omega arith;
  long = ((omega arith, tt), ((omega arith, (omega arith, (omega arith, tt))), tt));
}

add_block-Stepped_example :
    (t : Builder (Sorter Records)) × Stepped compress sia_hash write_sorted close next taken start
      (view_block compress sia_hash write_sorted close next taken
        (sizes compress sia_hash write_sorted close next taken start)
        second_block
        (view compress sia_hash write_sorted close next taken start))
      t
    × (add_block compress sia_hash write_sorted close second_block start ≡ (
        if ltb t.offset_end (length t.blockchain.out) then fail too_large_offset t else done tt t))
add_block-Stepped_example =
    add_block-Stepped compress sia_hash write_sorted close next taken second_block start
      start-IsWorking second-Fits

add_blocks-Built_example : Built compress sia_hash write_sorted close next taken blocks start
add_blocks-Built_example =
    add_blocks-Built compress sia_hash write_sorted close next taken blocks start start-IsWorking
      both-FitAll

abbrev finish : Builder (Sorter Records)
finish = record start {
  blockchain = record buffer { out = 7 ∷ 255 ∷ 5 ∷ 6 ∷ [] };
  blockchain_len = 4;
  leaves_hashes = record buffer { out = 2 ∷ 3 ∷ [] };
  headers_file = record buffer { out = 9 ∷ 9 ∷ 8 ∷ [] };
  offsets = record buffer { out = 0 ∷ 0 ∷ 1 ∷ 0 ∷ [] };
  offset_index = 2;
  block_locations = record buffer { out = 0 ∷ 1 ∷ 1 ∷ 1 ∷ [] };
  addresses = record sorter { vals = 1 ∷ 2 ∷ 1 ∷ 1 ∷ 2 ∷ 2 ∷ 4 ∷ 5 ∷ 2 ∷ 6 ∷ 6 ∷ 2 ∷ [] };
  buf = 1 ∷ 1 ∷ 2 ∷ 0 ∷ 0 ∷ 0 ∷ 0 ∷ 0 ∷ [];
}

run-eq : add_blocks compress sia_hash write_sorted close blocks start ≡ done tt finish
unfolding add_blocks add_block put sialite.Base.put_le sialite.Fastmap.Sink.put_full
    sialite.Base.copy sialite.Base.copy_at sialite.Cache.Builder.add_payouts
    sialite.Cache.Builder.add_item sialite.Cache.Builder.write_address add
    sialite.Cache.Builder.add_transactions sialite.Cache.Builder.write_transaction
    sialite.Cache.Builder.write_addresses sialite.Cache.Builder.write_contracts
run-eq = refl

abbrev params : Parameters
params = record {
  offset_len = 2;
  offset_index_len = 1;
  address_page_len = 4;
  address_prefix_len = 2;
  address_fastmap_prefix_len = 2;
  address_offset_len = 4;
}

abbrev files : Files
files = record {
  blockchain = 7 ∷ 255 ∷ 5 ∷ 6 ∷ [];
  offsets = 0 ∷ 0 ∷ 1 ∷ 0 ∷ [];
  block_locations = 0 ∷ 1 ∷ 1 ∷ 1 ∷ [];
  leaves_hashes = 2 ∷ 3 ∷ [];
  addresses_fastmap_data = replicate 4 0;
  addresses_fastmap_prefixes = replicate 2 0;
  addresses_indices = [];
}

abbrev server : Server
server = record {
  files = files;
  address_map = record {
    fm = record {
      npages = 1;
      page_len = 4;
      key_len = 2;
      value_len = 1;
      prefix_len = 2;
      per_page = 1;
      values_start = 2;
      pages = replicate 4 0;
      prefixes = replicate 2 0;
    };
    values = [];
    value_len = 1;
    uninliner = no_inliner;
  };
  offset_len = 2;
  offset_index_len = 1;
  address_prefix_len = 2;
  nblocks = 2;
  nitems = 2;
}

server-eq : new_server params files ≡ ok server
unfolding new_server sialite.Fastmap.MultiMap.open_multi_map sialite.Fastmap.Map.open_map
server-eq = refl

abbrev payout_item : Entry
payout_item = record { hashes = (1 ∷ 2 ∷ 3 ∷ []) ∷ []; plain = 7 ∷ []; stored = 7 ∷ [] }

abbrev sale_item : Entry
sale_item = record {
  hashes = (1 ∷ 2 ∷ 3 ∷ []) ∷ (4 ∷ 5 ∷ 6 ∷ []) ∷ (6 ∷ 6 ∷ 6 ∷ []) ∷ [];
  plain = 5 ∷ 6 ∷ [];
  stored = 255 ∷ 5 ∷ 6 ∷ [];
}

-- A tree whose proofs are the leaves.
abbrev prove : ℕ → List Bytes → Result (List Bytes)
prove n ls = ok ls

get_item-serves_example :
    get_item 1 prove server 1
    ≡ ok (record {
      data_bytes = 255 ∷ 5 ∷ 6 ∷ [];
      compression = snappy;
      block = 1;
      index = 0;
      num_leaves = 1;
      merkle_proof = 3 ∷ [];
    })
unfolding sialite.Cache.Builder.Files.starts sialite.Base.put_le
get_item-serves_example =
    get_item-serves sia_hash 1 (λ b. refl) server
      ((payout_item ∷ [], []) ∷ ([], sale_item ∷ []) ∷ [])
      (record {
        blockchain = refl;
        offsets = refl;
        block_locations = refl;
        leaves_hashes = refl;
        nblocks = refl;
        nitems = refl;
        short = omega arith;
        short_index = omega arith;
        fit = omega arith;
        fit_index = omega arith;
      })
      ((payout_item ∷ [], []) ∷ []) ([], sale_item ∷ []) [] refl [] sale_item [] refl prove
      ((3 ∷ []) ∷ []) refl (refl, tt)

-- The server with an address map of one address, which has items 1, 0 and 1.
abbrev known : Server
known = record server {
  address_prefix_len = 1;
  address_map = record {
    fm = record {
      npages = 1;
      page_len = 2;
      key_len = 1;
      value_len = 1;
      prefix_len = 1;
      per_page = 1;
      values_start = 1;
      pages = 5 ∷ 0 ∷ [];
      prefixes = 5 ∷ [];
    };
    values = 3 ∷ 2 ∷ 1 ∷ 2 ∷ [];
    value_len = 1;
    uninliner = no_inliner;
  };
}

abbrev served_item : ℕ → Item
served_item zero = record {
  data_bytes = 7 ∷ [];
  compression = no_compression;
  block = 0;
  index = 0;
  num_leaves = 1;
  merkle_proof = 2 ∷ [];
}
served_item (suc n) = record {
  data_bytes = 255 ∷ 5 ∷ 6 ∷ [];
  compression = snappy;
  block = 1;
  index = 0;
  num_leaves = 1;
  merkle_proof = 3 ∷ [];
}

get_history-served_example :
    get_history 1 prove known (5 ∷ []) ≡ ok (served_item 1 ∷ served_item 0 ∷ [])
unfolding indices sialite.Base.put_le get_item multi_lookup sialite.Fastmap.Map.lookup
    sialite.Fastmap.Map.find_page sialite.Fastmap.Map.find_slot sialite.Fastmap.Map.lookup_page
    sialite.Fastmap.Map.is_after sialite.Fastmap.Map.is_from sialite.Fastmap.Search.search
    sialite.Base.bytes_compare sialite.Base.bytes_eq sialite.Base.uvarint
    sialite.Fastmap.Inline.uninline sialite.Base.get_le sialite.Base.copy
    sialite.Cache.Server.get_payouts_start sialite.Cache.Server.get_block_location
    sialite.Cache.Server.pieces
get_history-served_example =
    get_history-served 1 prove known served_item (omega arith) (5 ∷ []) (1 ∷ 0 ∷ 1 ∷ [])
      (omega arith) refl (omega arith) refl (omega arith, (omega arith, (omega arith, tt)))
      (refl, (refl, tt))

start-IsEmpty : IsEmpty compress sia_hash write_sorted close next taken start
start-IsEmpty = record {
  working = start-IsWorking;
  blockchain = refl;
  offsets = refl;
  locations = refl;
  leaves = refl;
  index = refl;
}

files-Suits :
    Suits compress sia_hash write_sorted close next taken blocks start finish start-IsEmpty
      both-FitAll run-eq params files
unfolding payout_entry transaction_entry
files-Suits = record {
  shares = record {
    blockchain = refl;
    offsets = refl;
    block_locations = refl;
    leaves_hashes = refl;
    offset_len = refl;
    offset_index_len = refl;
  };
  some_offset = omega arith;
  some_index = omega arith;
  fit = omega arith;
  fit_index = omega arith;
}

built-served_example :
    get_item 1 prove server 1
    ≡ ok (record {
      data_bytes = 255 ∷ 5 ∷ 6 ∷ [];
      compression = snappy;
      block = 1;
      index = 0;
      num_leaves = 1;
      merkle_proof = 3 ∷ [];
    })
unfolding payout_entry transaction_entry transaction_hashes contract_hashes
built-served_example =
    built-served compress sia_hash write_sorted close next taken blocks start finish start-IsEmpty
      both-FitAll run-eq params files files-Suits server server-eq 1 (λ b. refl) (first_block ∷ [])
      second_block [] refl [] sale_item [] refl prove ((3 ∷ []) ∷ []) refl (refl, tt)
