-- ===== src/Fastmap/Map.antt =====
-- fastmap/fastmap.go, Map: the reader of the pages.
pub mod Slots
pub mod Found
pub mod Absent
use sialite.Base.{
  ℕ, ◌+◌, ◌-◌, ◌*◌, ◌/◌, ◌≡◌, refl, Ordering, Bool, true, false, not, Option, none, some, Bytes,
  length, take, slice, bytes_eq, bytes_compare, ◌==◌, ltb, if◌then◌else◌, Result, ok, err, panic,
  bad_data_len, bad_prefixes_len, bad_key_len,
}
use sialite.Fastmap.Search.{search}

-- The fields `data` and `prefixes` are here `pages` and `prefixes`.
pub record Map : Type 0 where
  pub npages : ℕ
  pub page_len : ℕ
  pub key_len : ℕ
  pub value_len : ℕ
  pub prefix_len : ℕ
  pub per_page : ℕ
  pub values_start : ℕ
  pub pages : Bytes
  pub prefixes : Bytes

-- OpenMap, with the three divisions by zero at which Go panics.
unfoldable pub open_map : ℕ → ℕ → ℕ → Bytes → Bytes → Result Map
open_map page_len key_len value_len pages prefixes =
    let npages = length pages / page_len in
    let prefix_len = length prefixes / npages in
    let per_page = page_len / (key_len + value_len) in
    if page_len == 0
    then panic
    else if not (npages * page_len == length pages)
    then err bad_data_len
    else if npages == 0
    then panic
    else if not (npages * prefix_len == length prefixes)
    then err bad_prefixes_len
    else if key_len + value_len == 0
    then panic
    else ok (record {
      npages = npages;
      page_len = page_len;
      key_len = key_len;
      value_len = value_len;
      prefix_len = prefix_len;
      per_page = per_page;
      values_start = per_page * key_len;
      pages = pages;
      prefixes = prefixes;
    })

-- `bytes.Compare(a, b) > 0`
unfoldable pub is_after : Bytes → Bytes → Bool
is_after a b = elim (bytes_compare a b) [ Ordering.gt ↦ true | _ ↦ false ]

-- `bytes.Compare(a, b) >= 0`
unfoldable pub is_from : Bytes → Bytes → Bool
is_from a b = elim (bytes_compare a b) [ Ordering.lt ↦ false | _ ↦ true ]

-- The number of pages whose prefix is not above that of the key: `ipage + 1`.
unfoldable pub find_page : Map → Bytes → ℕ
find_page m key =
    search m.npages
      (λ i. is_after (slice (i * m.prefix_len) m.prefix_len m.prefixes) (take m.prefix_len key))

-- The first slot of the page whose key is not below the key.
unfoldable pub find_slot : Map → Bytes → Bytes → ℕ
find_slot m page key = search m.per_page (λ i. is_from (slice (i * m.key_len) m.key_len page) key)

-- The part of Lookup that stays on one page.
unfoldable pub lookup_page : Map → Bytes → Bytes → Option Bytes
lookup_page m page key =
    let inside = find_slot m page key in
    if inside == m.per_page
    then none
    else if not (bytes_eq key (slice (inside * m.key_len) m.key_len page))
    then none
    else some (slice (m.values_start + inside * m.value_len) m.value_len page)

-- Map.Lookup; `some` is a non-nil slice. The capacity of the key is taken to be its length, so a
-- prefix longer than the key is out of range.
unfoldable pub lookup : Map → Bytes → Result (Option Bytes)
lookup m key =
    let found = find_page m key in
    if not (length key == m.key_len)
    then err bad_key_len
    else if ltb (length key) m.prefix_len
    then panic
    else if found == 0
    then ok none
    else ok (lookup_page m (slice ((found - 1) * m.page_len) m.page_len m.pages) key)
