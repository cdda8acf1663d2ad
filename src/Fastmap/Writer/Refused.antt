-- ===== src/Fastmap/Writer/Refused.antt =====
-- The records that Write refuses before it changes anything.
use sialite.Base.{
  ◌≡◌, Ordering, true, false, Bytes, bytes_eq, bytes_compare, ◌==◌, fail, ff_key, duplicates,
  not_ordered, arith,
}
use sialite.Fastmap.Writer.{MapWriter, write_record}

module _ (key value : Bytes) (w : MapWriter) where
  pub refuse_ff : bytes_eq key w.ffff ≡ true → write_record key value w ≡ fail ff_key w
  unfolding write_record
  refuse_ff h = ground arith

  module _ (plain : bytes_eq key w.ffff ≡ false) (n : (w.npages == 0) ≡ false) where
    pub refuse_same :
        bytes_compare w.prev_key key ≡ Ordering.eq → write_record key value w ≡ fail duplicates w
    unfolding write_record
    refuse_same o = ground arith

    pub refuse_lower :
        bytes_compare w.prev_key key ≡ Ordering.gt → write_record key value w ≡ fail not_ordered w
    unfolding write_record
    refuse_lower o = ground arith
