-- ===== src/Fastmap/RoundTrip.antt =====
-- What is written is found: the writer and the reader together.
use sialite.Base.{
  concat-append, ◌<◌, ◌≡◌, refl, sym, ap, subst, ◌∙◌, ◌≢◌, inl, inr, Bool-cases, bytes_eq,
  bytes_eq→eq, bytes_eq_refl, if◌then◌else◌, Option, false, none, some, List, [], ◌∷◌, ◌++◌,
  append_assoc, append-nil, All, All-append, All-left, All-right, Bytes, IsBytes, length, replicate,
  concat, length-append, done, fail, low_prefix_len, ok, arith,
}
use sialite.Fastmap.Sink.{Sink}
use sialite.Fastmap.Map.{Map, open_map, lookup}
use sialite.Fastmap.Map.Found.{opened, open_map-pages, lookup-entry}
use sialite.Fastmap.Map.Absent.{lookup-absent}
use sialite.Fastmap.Writer.{MapWriter, new_map_writer, close_map}
use sialite.Fastmap.Writer.Pages.{Entry, Layout, IsLayout, Sized}
use sialite.Fastmap.Paging.{Ascending, Separated, Separated-snoc, Paged}
use sialite.Fastmap.Build.{write_each, new_writer, build}
use sialite.Fastmap.Build.First.{IsFresh, first-Holds, write-done}
use sialite.Fastmap.Build.Loop.{
  Loaded, loaded, refused, Crowded, IsPlain, write_each-Loaded, cons-Loaded,
}
use sialite.Fastmap.Build.Finish.{close_map-Files}

module _ (c : Layout) (l : IsLayout c) (all : List (List Entry)) (h : Separated c all) where
  abbrev IsFound : Entry → Type 0
  IsFound e = lookup (opened c all) e.key ≡ ok (some e.value)

  page-IsFound :
      (before : List (List Entry)) (p : List Entry) (after : List (List Entry))
      (front back : List Entry)
      → all ≡ before ++ (p ∷ after)
      → p ≡ front ++ back
      → All (λ e. IsBytes e.key) back
      → All IsFound back
  page-IsFound before p after front [] e q b = tt
  page-IsFound before p after front (x ∷ back) e q b =
      let whole : all ≡ before ++ ((front ++ (x ∷ back)) ∷ after) =
        e ∙ ap (λ p. before ++ (p ∷ after)) q in
      (
        ap (λ ps. lookup (opened c ps) x.key) whole
            ∙ lookup-entry c l before front x back after (subst (Separated c) whole h) b.0,
        page-IsFound before p after (front ++ x ∷ []) back e
            (q ∙ sym (append_assoc front (x ∷ []) back)) b.1,
      )

  pages-IsFound :
      (before ps : List (List Entry))
      → all ≡ before ++ ps
      → All (λ e. IsBytes e.key) (concat ps)
      → All IsFound (concat ps)
  pages-IsFound before [] e b = tt
  pages-IsFound before (p ∷ ps) e b =
      All-append IsFound p (concat ps)
        (page-IsFound before p ps [] p e refl (All-left (λ e. IsBytes e.key) p (concat ps) b))
        (pages-IsFound (before ++ p ∷ []) ps (e ∙ sym (append_assoc before (p ∷ []) ps))
          (All-right (λ e. IsBytes e.key) p (concat ps) b))

-- The value of the first entry with the key: what a lookup is to find.
unfoldable pub find_entry : Bytes → List Entry → Option Bytes
find_entry key [] = none
find_entry key (e ∷ es) =
    let rest = find_entry key es in if bytes_eq key e.key then some e.value else rest

-- A reader that has every entry, and no other key, agrees with `find_entry`.
find_entry_lem :
    (m : Map) (key : Bytes) (es : List Entry)
    → All (λ e. lookup m e.key ≡ ok (some e.value)) es
    → (All (λ e. key ≢ e.key) es → lookup m key ≡ ok none)
    → lookup m key ≡ ok (find_entry key es)
unfolding find_entry
find_entry_lem m key [] h k = k tt
find_entry_lem m key (e ∷ es) h k = elim (Bool-cases (bytes_eq key e.key)) [
  | inl q ↦ rw q (ap (lookup m) (bytes_eq→eq key e.key q) ∙ h.0)
  | inr q ↦ rw q (find_entry_lem m key es h.1 (λ others. k (differs q, others)))
]
  where
    differs : bytes_eq key e.key ≡ false → key ≢ e.key
    differs q r = ground (arith, q, ap (bytes_eq key) r, bytes_eq_refl key)

-- How a run ends: with files in which a key is looked up as among the records, or refused for a
-- crowded prefix.
pub data Ending (c : Layout) (es : List Entry) (key : Bytes) (w : MapWriter) : Type 0 where
  served :
      (w' : MapWriter) (m : Map)
      → build es w ≡ done tt w'
      → open_map c.page_len c.key_len c.value_len w'.pages_out.out w'.prefixes_out.out ≡ ok m
      → lookup m key ≡ ok (find_entry key es)
      → Ending c es key w
  crowded :
      (w' : MapWriter) → build es w ≡ fail low_prefix_len w' → Crowded c es → Ending c es key w

build-done :
    (es : List Entry) (w w' w'' : MapWriter)
    → write_each es w ≡ done tt w'
    → close_map w' ≡ done tt w''
    → build es w ≡ done tt w''
unfolding build
build-done es w w' w'' p q = ground (arith, p, q)

build-fail :
    (es : List Entry) (w w' : MapWriter)
    → write_each es w ≡ fail low_prefix_len w'
    → build es w ≡ fail low_prefix_len w'
unfolding build
build-fail es w w' p = ground (arith, p)

module _ (c : Layout) (l : IsLayout c) (key : Bytes) (size : length key ≡ c.key_len)
    (plain : key ≢ replicate c.key_len 0xFF) where
  -- A loaded writer is closed, and its files are opened.
  Loaded-Ending :
      (es : List Entry) (w : MapWriter)
      → All (λ e. IsBytes e.key) es
      → Loaded c [] es w
      → Ending c es key w
  Loaded-Ending es w bytes (refused w' run k) = crowded w' (build-fail es w w' run) k
  Loaded-Ending es w bytes (loaded w' file front last run h paged all) =
      let ps = file ++ (front ++ last ∷ []) ∷ [] in
      let (w'', closed, files) = close_map-Files c l file front last w' h.frame h.buffers in
      let sep = Separated-snoc c file (front ++ last ∷ []) paged.pages paged.before paged.page in
      let whole : concat ps ≡ es =
        concat-append file ((front ++ last ∷ []) ∷ [])
        ∙ ap (◌++◌ (concat file)) (append-nil (front ++ last ∷ []))
        ∙ all in
      let some_page : 0 < length ps =
        omega (arith, length-append file ((front ++ last ∷ []) ∷ [])) in
      served w'' (opened c ps) (build-done es w w' w'' run closed)
        (rw (files.pages_file, files.prefixes_file) (open_map-pages c ps l sep some_page))
        (find_entry_lem (opened c ps) key es
          (subst (All (IsFound c l ps sep)) whole (
            pages-IsFound c l ps sep [] ps refl
              (subst (All (λ e. IsBytes e.key)) (sym whole) bytes)))
          (λ k.
            lookup-absent c l ps sep key size plain (subst (All (λ e. key ≢ e.key)) (sym whole) k)))

  -- At least one record, all of the right sizes and in ascending order of their keys, none of them
  -- all FF, are written to a fresh writer with a page that has a slot, over files that take what
  -- they are given and whose Close does not fail, and that is then closed. Either the writer refuses them with ErrLowPrefixLen, and then they hold a
  -- page of records that share the prefix of the next one; or OpenMap accepts the files, and
  -- Lookup of any key of the right length but FF gives what the list of the records has for it,
  -- which is nothing for a key that was not written.
  pub build-Ending :
      (p q : Sink) (e : Entry) (es : List Entry)
      → IsFresh p
      → IsFresh q
      → Ascending (e ∷ es)
      → All (Sized c) (e ∷ es)
      → All (IsPlain c) (e ∷ es)
      → All (λ e. IsBytes e.key) (e ∷ es)
      → Ending c (e ∷ es) key (new_writer c p q)
  unfolding new_map_writer
  build-Ending p q e es fp fq a s n b =
      let (w', run, h) = first-Holds c l p q fp fq e s.0 n.0 in
      let roomy = l.roomy in
      let paged : Paged c [] (e ∷ []) = record {
        pages = tt;
        before = tt;
        page = record {
          ascending = (tt, tt);
          some_entry = omega arith;
          fits = roomy;
          sized = (s.0, tt);
        };
      } in
      Loaded-Ending (e ∷ es) (new_writer c p q) b (
        cons-Loaded c [] e es (new_writer c p q) w' _
          (write-done c e s.0 (new_writer c p q) refl refl w' run)
          (write_each-Loaded c l es [] [] e w' h paged a s.1 n.1))
