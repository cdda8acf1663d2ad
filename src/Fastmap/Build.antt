-- ===== src/Fastmap/Build.antt =====
-- Writing a whole sequence of records: NewMapWriter, a Write for each record, Close.
pub mod First
pub mod Loop
pub mod Finish
pub mod Accepted
use sialite.Base.{◌++◌, List, [], ◌∷◌, M, pure, ◌>>=◌, ◌>>◌}
use sialite.Fastmap.Writer.{MapWriter, new_map_writer, write, close_map}
use sialite.Fastmap.Writer.Pages.{Entry, Layout}
use sialite.Fastmap.Sink.{Sink}

-- A client's calls of Write, up to the first that fails.
unfoldable pub write_each : List Entry → M MapWriter (Unit {0})
write_each [] = pure tt
write_each (e ∷ es) = do write (e.key ++ e.value); write_each es

abbrev pub new_writer : Layout → Sink → Sink → MapWriter
new_writer c p q = new_map_writer c.page_len c.key_len c.value_len c.prefix_len p q

-- The whole run.
unfoldable pub build : List Entry → M MapWriter (Unit {0})
build es = do write_each es; close_map
