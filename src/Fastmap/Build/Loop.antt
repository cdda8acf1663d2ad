-- ===== src/Fastmap/Build/Loop.antt =====
-- The calls of Write after the first.
use sialite.Base.{
  concat-append, ℕ, ◌≡◌, refl, sym, ap, subst, ◌∙◌, ◌≢◌, List, [], ◌∷◌, ◌++◌, append_assoc,
  append-nil, All, length, replicate, concat, done, fail, low_prefix_len, arith,
}
use sialite.Fastmap.Writer.{MapWriter, write}
use sialite.Fastmap.Writer.Pages.{Entry, Layout, IsLayout, Sized, per_page}
use sialite.Fastmap.Writer.Shared.{prefix_of}
use sialite.Fastmap.Writer.State.{Holds}
use sialite.Fastmap.Writer.Steps.{appended, turned, stuck, write_record-Stepped}
use sialite.Fastmap.Paging.{Ascending, Paged, Paged-appended, Paged-turned}
use sialite.Fastmap.Build.{write_each}
use sialite.Fastmap.Build.First.{write-done, write-fail}

-- The entries of the file and of the page that is being filled.
abbrev pub entries : List (List Entry) → List Entry → List Entry
entries file cur = concat file ++ cur

-- A page of records and the next one have one prefix, so no page can end before the next one.
pub record Crowded (c : Layout) (es : List Entry) : Type 0 where
  pub before : List Entry
  pub group : List Entry
  pub next : Entry
  pub after : List Entry
  pub parts : es ≡ before ++ (group ++ (next ∷ after))
  pub full : length group ≡ per_page c
  pub shared : All (λ m. prefix_of c m ≡ prefix_of c next) group

-- How the calls end: everything is on pages, or the writer refuses a crowded prefix.
pub data Loaded (c : Layout) (start : List Entry) (es : List Entry) (w : MapWriter) : Type 0 where
  loaded :
      (w' : MapWriter) (file : List (List Entry)) (front : List Entry) (last : Entry)
      → write_each es w ≡ done tt w'
      → Holds c file front last w'
      → Paged c file (front ++ last ∷ [])
      → entries file (front ++ last ∷ []) ≡ start ++ es
      → Loaded c start es w
  refused :
      (w' : MapWriter)
      → write_each es w ≡ fail low_prefix_len w'
      → Crowded c (start ++ es)
      → Loaded c start es w

-- Keys that Write accepts: not all FF.
abbrev pub IsPlain : Layout → Entry → Type 0
IsPlain c e = e.key ≢ replicate c.key_len 0xFF

pub continue_with :
    (e : Entry) (es : List Entry) (w w' : MapWriter) (n : ℕ)
    → write (e.key ++ e.value) w ≡ done n w'
    → write_each (e ∷ es) w ≡ write_each es w'
unfolding write_each
continue_with e es w w' n run = ground (arith, run)

stop_with :
    (e : Entry) (es : List Entry) (w w' : MapWriter)
    → write (e.key ++ e.value) w ≡ fail low_prefix_len w'
    → write_each (e ∷ es) w ≡ fail low_prefix_len w'
unfolding write_each
stop_with e es w w' run = ground (arith, run)

-- The first of the calls, then the others.
pub cons-Loaded :
    (c : Layout) (start : List Entry) (e : Entry) (es : List Entry) (w w' : MapWriter) (n : ℕ)
    → write (e.key ++ e.value) w ≡ done n w'
    → Loaded c (start ++ e ∷ []) es w'
    → Loaded c start (e ∷ es) w
cons-Loaded c start e es w w' n run (loaded w'' file front last rest h p q) =
    loaded w'' file front last (continue_with e es w w' n run ∙ rest) h p
      (q ∙ append_assoc start (e ∷ []) es)
cons-Loaded c start e es w w' n run (refused w'' rest k) =
    refused w'' (continue_with e es w w' n run ∙ rest) (record {
      before = k.before;
      group = k.group;
      next = k.next;
      after = k.after;
      parts = sym (append_assoc start (e ∷ []) es) ∙ k.parts;
      full = k.full;
      shared = k.shared;
    })

turned_entries :
    (file : List (List Entry)) (cur stay moved : List Entry) (e : Entry)
    → cur ≡ stay ++ moved
    → entries (file ++ stay ∷ []) (moved ++ e ∷ []) ≡ entries file cur ++ e ∷ []
turned_entries file cur stay moved e parts =
    ap (λ xs. xs ++ (moved ++ e ∷ [])) (concat-append file (stay ∷ []))
    ∙ rw parts (simp (append_assoc, append-nil))

module _ (c : Layout) (l : IsLayout c) where
  pub write_each-Loaded :
      (es : List Entry) (file : List (List Entry)) (front : List Entry) (last : Entry)
      (w : MapWriter)
      → Holds c file front last w
      → Paged c file (front ++ last ∷ [])
      → Ascending (last ∷ es)
      → All (Sized c) es
      → All (IsPlain c) es
      → Loaded c (entries file (front ++ last ∷ [])) es w
  unfolding write_each
  write_each-Loaded [] file front last w h p a s n =
      loaded w file front last refl h p (sym (append-nil (entries file (front ++ last ∷ []))))
  write_each-Loaded (e ∷ es) file front last w h p a s n =
      elim (write_record-Stepped c l file front last e w h.frame s.0 a.0.0 n.0 h.buffers) [
        | appended w' less run h' ↦
            cons-Loaded c _ e es w w' _
              (write-done c e s.0 w h.frame.key_len h.frame.value_len w' run)
              (subst (λ xs. Loaded c xs es w')
                (sym (append_assoc (concat file) (front ++ last ∷ []) (e ∷ [])))
                (write_each-Loaded es file (front ++ last ∷ []) e w' h'
                  (Paged-appended c file front last e p a.0.0 s.0 less) a.1 s.1 n.1))
        | turned w' sf sl moved full parts shared differs run h' ↦
            cons-Loaded c _ e es w w' _
              (write-done c e s.0 w h.frame.key_len h.frame.value_len w' run)
              (subst (λ xs. Loaded c xs es w')
                (turned_entries file (front ++ last ∷ []) (sf ++ sl ∷ []) moved e parts)
                (write_each-Loaded es (file ++ (sf ++ sl ∷ []) ∷ []) moved e w' h'
                  (Paged-turned c file front last e p a.0.0 s.0 sf sl moved parts shared differs)
                  a.1 s.1 n.1))
        | stuck full shared run ↦
            refused _
              (stop_with e es w _
                (write-fail c e s.0 w h.frame.key_len h.frame.value_len low_prefix_len _ run))
              (record {
                before = concat file;
                group = front ++ last ∷ [];
                next = e;
                after = es;
                parts = append_assoc (concat file) (front ++ last ∷ []) (e ∷ es);
                full = full;
                shared = shared;
              })
      ]
