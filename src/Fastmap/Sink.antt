-- ===== src/Fastmap/Sink.antt =====
-- The io.Writer that the writers of fastmap are given: what it took, and how it will answer.
use sialite.Base.{
  ℕ, ◌≡◌, ◌≢◌, refl, Bool, true, false, not, List, [], ◌∷◌, ◌++◌, Bytes, length, take, arith, ◌==◌,
  M, done, fail, short_write, io_error, fail_if, ◌>>=◌,
}
use Prim.Native.Nat.{min}

-- One answer of the environment to a call of Write.
pub data Reply : Type 0 where
  accepts : Reply
  takes : ℕ → Reply
  breaks : Reply

-- Whether the writer is an io.Closer too, and whether its Close fails.
pub data Closer : Type 0 where
  no_closer closes close_fails : Closer

-- With an empty plan every write is accepted.
pub record Sink : Type 0 where
  pub out : Bytes
  pub plan : List Reply
  pub closer : Closer
  pub closed : Bool

pub put_with : List Reply → Bytes → M Sink ℕ
put_with [] b s = done (length b) (record s { out = s.out ++ b })
put_with (accepts ∷ rest) b s = done (length b) (record s { out = s.out ++ b; plan = rest })
put_with (takes n ∷ rest) b s =
    done (min n (length b)) (record s { out = s.out ++ take n b; plan = rest })
put_with (breaks ∷ rest) b s = fail io_error (record s { plan = rest })

-- Write
unfoldable pub put : Bytes → M Sink ℕ
unfolding put_with
put b s = put_with s.plan b s

-- `if n, err := w.Write(b); err != nil { return err } else if n != len(b) { return ErrShortWrite }`
unfoldable pub put_full : Bytes → M Sink (Unit {0})
unfolding put
put_full b = do n ← put b; fail_if (not (n == length b)) short_write

close_with : Closer → M Sink (Unit {0})
close_with no_closer s = done tt s
close_with closes s = done tt (record s { closed = true })
close_with close_fails s = fail io_error s

-- `if c, ok := w.(io.Closer); ok { if err := c.Close(); err != nil { return err } }`
unfoldable pub close : M Sink (Unit {0})
unfolding close_with
close s = close_with s.closer s

abbrev pub buffer : Sink
buffer = record { out = []; plan = []; closer = closes; closed = false }

pub put-accepting :
    (b : Bytes) (s : Sink) → s.plan ≡ [] → put b s ≡ done (length b) (record s { out = s.out ++ b })
unfolding put
put-accepting b s e = rw e refl

pub put_full-accepting :
    (b : Bytes) (s : Sink) → s.plan ≡ [] → put_full b s ≡ done tt (record s { out = s.out ++ b })
unfolding put_full
put_full-accepting b s e = ground (arith, e)

pub close-working :
    (s : Sink) → s.closer ≢ close_fails → (t : Sink) × (close s ≡ done tt t) × (t.out ≡ s.out)
unfolding close
close-working s h = go s.closer h
  where
    go :
        (c : Closer) → c ≢ close_fails → (t : Sink) × (close_with c s ≡ done tt t) × (t.out ≡ s.out)
    go no_closer h = (s, refl, refl)
    go closes h = (record s { closed = true }, refl, refl)
    go close_fails h = absurd (h refl)
