-- ===== src/Fastmap/Build/First.antt =====
-- The first record, and the records that Write splits.
use sialite.Base.{
  ℕ, ◌≡◌, refl, ◌≢◌, [], ◌++◌, length, replicate, take-append, drop-append, length-append,
  length-replicate, bytes_eq_ne, done, fail, Error, arith,
}
use sialite.Fastmap.Sink.{Sink, close_fails}
use sialite.Fastmap.Writer.{MapWriter, new_map_writer, write, write_record}
use sialite.Fastmap.Writer.Pages.{Entry, Layout, IsLayout, Sized, empty-Filled}
use sialite.Fastmap.Writer.Runs.{keyed, first_run}
use sialite.Fastmap.Writer.State.{Holds, turn_page-Holds}
use sialite.Fastmap.Writer.Store.{Ready, store-Ready, copy_whole}
use sialite.Fastmap.Build.{new_writer}

-- A writer to which nothing was written, and which accepts everything.
pub record IsFresh (s : Sink) : Type 0 where
  pub out : s.out ≡ []
  pub plan : s.plan ≡ []
  pub closer : s.closer ≢ close_fails

module _ (c : Layout) (e : Entry) (se : Sized c e) (w : MapWriter) (k : w.key_len ≡ c.key_len)
    (v : w.value_len ≡ c.value_len) where
  pub write-done :
      (w' : MapWriter)
      → write_record e.key e.value w ≡ done tt w'
      → write (e.key ++ e.value) w ≡ done (length (e.key ++ e.value)) w'
  unfolding write
  write-done w' run = ground (
    arith,
    run,
    se.0,
    se.1,
    take-append w.key_len e.key e.value,
    drop-append w.key_len e.key e.value,
    length-append e.key e.value,
  )

  pub write-fail :
      (x : Error) (w' : MapWriter)
      → write_record e.key e.value w ≡ fail x w'
      → write (e.key ++ e.value) w ≡ fail x w'
  unfolding write
  write-fail x w' run = ground (
    arith,
    run,
    se.0,
    se.1,
    take-append w.key_len e.key e.value,
    drop-append w.key_len e.key e.value,
    length-append e.key e.value,
  )

module _ (c : Layout) (l : IsLayout c) (p q : Sink) (fp : IsFresh p) (fq : IsFresh q) (e : Entry)
    (se : Sized c e) (plain : e.key ≢ replicate c.key_len 0xFF) where
  start-Ready : Ready c [] [] e (keyed e.key (new_writer c p q))
  unfolding new_map_writer
  start-Ready = record {
    page_len = refl;
    key_len = refl;
    value_len = refl;
    prefix_len = refl;
    start = refl;
    marker = refl;
    pages_plan = fp.plan;
    prefixes_plan = fq.plan;
    pages_closer = fp.closer;
    prefixes_closer = fq.closer;
    pages = fp.out;
    prefixes = fq.out;
    count = refl;
    last_key = copy_whole _ e.key (omega (arith, se.0, length-replicate {A = ℕ} c.key_len 0));
    key_pos = omega arith;
    value_pos = omega arith;
    sized = tt;
    sized_last = se;
    fits = l.roomy;
    filled = empty-Filled c _ l (length-replicate {A = ℕ} c.page_len 0);
    spare = length-replicate {A = ℕ} c.page_len 0;
  }

  -- The first call of Write begins the first page.
  pub first-Holds :
      (w' : MapWriter) × (write_record e.key e.value (new_writer c p q) ≡ done tt w')
      × Holds c [] [] e w'
  unfolding new_map_writer
  first-Holds = (
    _,
    first_run e.key e.value (new_writer c p q) (bytes_eq_ne e.key _ plain) refl refl fq.plan,
    turn_page-Holds c [] [] e _ l
        (store-Ready c [] l [] e (keyed e.key (new_writer c p q)) start-Ready),
  )
