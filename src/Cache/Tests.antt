-- ===== src/Cache/Tests.antt =====
-- A server with three blocks.
use sialite.Base.{ℕ, ◌≡◌, refl, List, [], ◌∷◌, Bytes, length, replicate, arith}
use sialite.Fastmap.Inline.{no_inliner}
use sialite.Cache.Server.{Server, find_block, get_block_location}
use sialite.Cache.Located.{encode_locations, find_block-eq, get_block_location-eq}

abbrev three : List (ℕ × ℕ)
three = (0, 1) ∷ (3, 5) ∷ (6, 300) ∷ []

abbrev locations : Bytes
locations = 0 ∷ 0 ∷ 1 ∷ 0 ∷ 3 ∷ 0 ∷ 5 ∷ 0 ∷ 6 ∷ 0 ∷ 44 ∷ 1 ∷ []

abbrev server : Server
server = record {
  files = record {
    blockchain = [];
    offsets = [];
    block_locations = locations;
    leaves_hashes = [];
    addresses_fastmap_data = [];
    addresses_fastmap_prefixes = [];
    addresses_indices = [];
  };
  address_map = record {
    fm = record {
      npages = 0;
      page_len = 1;
      key_len = 1;
      value_len = 1;
      prefix_len = 1;
      per_page = 1;
      values_start = 1;
      pages = [];
      prefixes = [];
    };
    values = [];
    value_len = 1;
    uninliner = no_inliner;
  };
  offset_len = 2;
  offset_index_len = 2;
  address_prefix_len = 1;
  nblocks = 3;
  nitems = 400;
}

locations-eq : locations ≡ encode_locations 2 three
unfolding sialite.Base.put_le
locations-eq = refl

find_block-eq_example : find_block server 4 ≡ 2
find_block-eq_example =
    find_block-eq server three (omega arith) locations-eq refl
      ((omega arith, omega arith), ((omega arith, omega arith), ((omega arith, omega arith), tt)))
      ((0, 1) ∷ []) (3, 5) ((6, 300) ∷ []) refl 4 (omega arith, (omega arith, tt)) (omega arith, tt)

get_block_location-eq_example :
    get_block_location server 1 ≡ record { payouts_start = 3; txs_start = 5; next_start = 6 }
get_block_location-eq_example =
    get_block_location-eq server three (omega arith) locations-eq refl
      ((omega arith, omega arith), ((omega arith, omega arith), ((omega arith, omega arith), tt)))
      ((0, 1) ∷ []) (3, 5) ((6, 300) ∷ []) refl
