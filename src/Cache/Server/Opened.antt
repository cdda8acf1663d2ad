-- ===== src/Cache/Server/Opened.antt =====
-- What NewServer takes over from the parameters and the files.
use sialite.Base.{◌*◌, ◌/◌, ◌≡◌, length, Result, ok, err, panic, arith}
use sialite.Fastmap.MultiMap.{MultiMap}
use sialite.Cache.Server.{
  Parameters, Files, Server, container_of, open_addresses, with_counts, new_server,
}

pub record Takes (p : Parameters) (f : Files) (s : Server) : Type 0 where
  pub files : s.files ≡ f
  pub offset_len : s.offset_len ≡ p.offset_len
  pub offset_index_len : s.offset_index_len ≡ p.offset_index_len
  pub nblocks : s.nblocks ≡ length f.block_locations / (2 * p.offset_index_len)
  pub nitems : s.nitems ≡ length f.offsets / p.offset_len

with_counts-Takes :
    (p : Parameters) (f : Files) (r : Result MultiMap) (s : Server)
    → with_counts p f r ≡ ok s
    → Takes p f s
unfolding with_counts
with_counts-Takes p f (ok m) s h = ground arith
with_counts-Takes p f (err e) s h = ground arith
with_counts-Takes p f panic s h = ground arith

pub new_server-Takes :
    (p : Parameters) (f : Files) (s : Server) → new_server p f ≡ ok s → Takes p f s
unfolding new_server
new_server-Takes p f s h = with_counts-Takes p f (open_addresses p f (container_of p)) s h
