-- ===== src/Fastmap/Build/Accepted.antt =====
-- What a writer that took all records was given.
use sialite.Base.{
  ◌≡◌, refl, sym, ap, ◌∙◌, ◌≢◌, Ordering, false, List, [], ◌∷◌, ◌++◌, All, All-map, bytes_eq,
  bytes_eq_refl, bytes_eq_ne, bytes_compare, compare-lt_trans, replicate, done, fail, Error, ff_key,
  duplicates, not_ordered, ◌==◌, arith,
}
use sialite.Fastmap.Sink.{Sink}
use sialite.Fastmap.Writer.{MapWriter, new_map_writer, write, write_record}
use sialite.Fastmap.Writer.Pages.{Entry, Layout, IsLayout, Sized}
use sialite.Fastmap.Writer.State.{Holds}
use sialite.Fastmap.Writer.Steps.{appended, turned, stuck, write_record-Stepped}
use sialite.Fastmap.Writer.Refused.{refuse_ff, refuse_same, refuse_lower}
use sialite.Fastmap.Paging.{Ascending}
use sialite.Fastmap.Build.{write_each, new_writer}
use sialite.Fastmap.Build.First.{IsFresh, first-Holds, write-done, write-fail}
use sialite.Fastmap.Build.Loop.{IsPlain, continue_with}

-- A call that fails ends the run.
no_success :
    (e : Entry) (es : List Entry) (w t w' : MapWriter) (x : Error)
    → write (e.key ++ e.value) w ≡ fail x t
    → write_each (e ∷ es) w ≢ done tt w'
unfolding write_each
no_success e es w t w' x run h = ground (arith, run, h)

module _ (c : Layout) (l : IsLayout c) (w' : MapWriter) where
  -- The entry is not all FF, as the first call succeeds.
  first-IsPlain :
      (e : Entry) (es : List Entry) (w : MapWriter)
      → Sized c e
      → w.key_len ≡ c.key_len
      → w.value_len ≡ c.value_len
      → w.ffff ≡ replicate c.key_len 0xFF
      → write_each (e ∷ es) w ≡ done tt w'
      → IsPlain c e
  first-IsPlain e es w se k v marker run q =
      no_success e es w w w' ff_key
        (write-fail c e se w k v ff_key w (
          refuse_ff e.key e.value w
            (ap (λ x. bytes_eq x w.ffff) (q ∙ sym marker) ∙ bytes_eq_refl w.ffff)))
        run

  -- The entry is above the last one, as the call succeeds.
  next-Before :
      (e : Entry) (es : List Entry) (file : List (List Entry)) (front : List Entry) (last : Entry)
      (w : MapWriter)
      → Holds c file front last w
      → Sized c e
      → IsPlain c e
      → write_each (e ∷ es) w ≡ done tt w'
      → bytes_compare last.key e.key ≡ Ordering.lt
  next-Before e es file front last w h se plain run = go (bytes_compare last.key e.key) refl
    where
      other : bytes_eq e.key w.ffff ≡ false
      other = bytes_eq_ne e.key w.ffff (λ q. plain (q ∙ h.frame.marker))

      started : (w.npages == 0) ≡ false
      started = let n = h.frame.count in ground arith

      failing : (x : Error) → write_record e.key e.value w ≢ fail x w
      failing x r =
          no_success e es w w w' x (write-fail c e se w h.frame.key_len h.frame.value_len x w r) run

      go :
          (o : Ordering)
          → bytes_compare last.key e.key ≡ o
          → bytes_compare last.key e.key ≡ Ordering.lt
      go Ordering.lt q = q
      go Ordering.eq q = absurd (
          failing duplicates (
            refuse_same e.key e.value w other started
              (ap (λ k. bytes_compare k e.key) h.frame.last_key ∙ q)))
      go Ordering.gt q = absurd (
          failing not_ordered (
            refuse_lower e.key e.value w other started
              (ap (λ k. bytes_compare k e.key) h.frame.last_key ∙ q)))

  rest-Ascending :
      (es : List Entry) (file : List (List Entry)) (front : List Entry) (last : Entry)
      (w : MapWriter)
      → Holds c file front last w
      → All (Sized c) es
      → write_each es w ≡ done tt w'
      → Ascending (last ∷ es) × All (IsPlain c) es
  rest-Ascending [] file front last w h s run = ((tt, tt), tt)
  rest-Ascending (e ∷ es) file front last w h s run =
      let k = h.frame.key_len in
      let v = h.frame.value_len in
      let plain = first-IsPlain e es w s.0 k v h.frame.marker run in
      let o = next-Before e es file front last w h s.0 plain run in
      let more : (t : MapWriter)
          → write_record e.key e.value w ≡ done tt t
          → write_each es t ≡ done tt w' =
        λ t r. sym (continue_with e es w t _ (write-done c e s.0 w k v t r)) ∙ run in
      elim (write_record-Stepped c l file front last e w h.frame s.0 o plain h.buffers) [
        | appended t less r h' ↦
            behind o plain (rest-Ascending es file (front ++ last ∷ []) e t h' s.1 (more t r))
        | turned t sf sl moved full parts shared differs r h' ↦
            behind o plain
              (rest-Ascending es (file ++ (sf ++ sl ∷ []) ∷ []) moved e t h' s.1 (more t r))
        | stuck full shared r ↦
            absurd (no_success e es w _ w' _ (write-fail c e s.0 w k v _ _ r) run)
      ]
    where
      behind :
          bytes_compare last.key e.key ≡ Ordering.lt
          → IsPlain c e
          → Ascending (e ∷ es) × All (IsPlain c) es
          → Ascending (last ∷ e ∷ es) × All (IsPlain c) (e ∷ es)
      behind o plain r = (
        ((o, All-map es (λ f. compare-lt_trans last.key e.key f.key o) r.0.0), r.0),
        (plain, r.1),
      )

  -- At least one record, all of the right sizes, are written to a fresh writer with a page that has
  -- a slot, over files that take what they are given and whose Close does not fail. If every call
  -- of Write succeeds, then the keys are strictly ascending, with no key twice, and none is all FF:
  -- Write lets no other sequence through.
  pub write_each-Ascending :
      (p q : Sink) (e : Entry) (es : List Entry)
      → IsFresh p
      → IsFresh q
      → All (Sized c) (e ∷ es)
      → write_each (e ∷ es) (new_writer c p q) ≡ done tt w'
      → Ascending (e ∷ es) × All (IsPlain c) (e ∷ es)
  unfolding new_map_writer
  write_each-Ascending p q e es fp fq s run =
      let plain = first-IsPlain e es (new_writer c p q) s.0 refl refl refl run in
      let (t, r, h) = first-Holds c l p q fp fq e s.0 plain in
      let rest = rest-Ascending es [] [] e t h s.1 (
        sym (
          continue_with e es (new_writer c p q) t _
            (write-done c e s.0 (new_writer c p q) refl refl t r))
        ∙ run) in
      (rest.0, (plain, rest.1))
