-- ===== src/Netlib/Resume.antt =====
-- DownloadAllBlocks goes on after a broken stream: what it sends over all streams, and that it ends.
use sialite.Base.{
  ℕ, ◌<◌, ◌≡◌, refl, sym, subst, false, Option, none, some, List, [], ◌∷◌, ◌++◌, length,
  length-append, ◌==◌, Error, arith,
}
use sialite.Netlib.{
  Stream, Download, Session, opened, refused, returned, Run, Verdict, stop, again, is_eof, judge,
  download_blocks, download_all,
}
use sialite.Netlib.Chain.{IsChain, tip, offered, closing, expected-Meets, download_loop-expected}

again_new :
    {Block : Type 0} (prev : ℕ) (d : Download Block)
    → judge prev d ≡ again
    → (d.last == prev) ≡ false
unfolding judge is_eof
again_new prev d h = go d.failure h
  where
    go :
        (f : Option Error)
        → judge prev (record d { failure = f }) ≡ again
        → (d.last == prev) ≡ false
    go none q = ground arith
    go (some e) q = ground arith

module _ {Block : Type 0} (id parent_id : Block → ℕ) where
  IsChain-append :
      (prev : ℕ) (bs bs' : List Block)
      → IsChain id parent_id prev bs
      → IsChain id parent_id (tip id parent_id prev bs) bs'
      → IsChain id parent_id prev (bs ++ bs')
  IsChain-append prev [] bs' h k = k
  IsChain-append prev (b ∷ bs) bs' h k = (h.0, IsChain-append (id b) bs bs' h.1 k)

  -- Whatever happens to the stream, the blocks sent are a chain that ends at the returned ID.
  abbrev Grown : ℕ → Download Block → Type 0
  Grown prev d = IsChain id parent_id prev d.sent × (d.last ≡ tip id parent_id prev d.sent)

  pub download_blocks-Grown :
      (s : Stream Block) (prev : ℕ) → Grown prev (download_blocks id parent_id s prev)
  unfolding download_blocks
  download_blocks-Grown s prev = go s.write_name s.write_history
    where
      go :
          (n h : Option Error)
          → Grown prev
              (download_blocks id parent_id (record s { write_name = n; write_history = h }) prev)
      go (some e) h = (tt, refl)
      go none (some e) = (tt, refl)
      go none none =
          let m =
            expected-Meets id parent_id prev (offered id parent_id s.rounds)
              (closing id parent_id s.rounds) in
          subst (Grown prev) (sym (download_loop-expected id parent_id s.rounds prev)) (m.1, m.2)

  -- The call goes on only after a stream with a new block.
  some_new :
      (prev : ℕ) (d : Download Block) → Grown prev d → judge prev d ≡ again → 0 < length d.sent
  some_new prev d g h = go d.sent g.1
    where
      go : (bs : List Block) → d.last ≡ tip id parent_id prev bs → 0 < length bs
      go [] e = absurd (let q = again_new prev d h in ground arith)
      go (b ∷ bs) e = omega arith

  -- What a run of DownloadAllBlocks over these sessions has sent, and that it has returned if
  -- there are more sessions than blocks.
  abbrev Resumes : List (Session Block) → ℕ → Run Block → Type 0
  Resumes sessions prev r =
      IsChain id parent_id prev r.sent
      × (length r.sent < length sessions → (e : Option Error) × (r.ended ≡ returned e))

  module _ (s : Stream Block) (sessions : List (Session Block)) (prev : ℕ) where
    abbrev first : Download Block
    first = download_blocks id parent_id s prev

    stop-eq :
        (r : Option Error)
        → judge prev first ≡ stop r
        → download_all id parent_id (opened s ∷ sessions) prev
          ≡ record { sent = first.sent; ended = returned r }
    unfolding download_all
    stop-eq r q = rw (download_all, q) refl

    again-eq :
        judge prev first ≡ again
        → download_all id parent_id (opened s ∷ sessions) prev ≡ (
            let rest = download_all id parent_id sessions first.last in
            record rest { sent = first.sent ++ rest.sent })
    unfolding download_all
    again-eq q = rw (download_all, q) refl

    again-Resumes :
        (rest : Run Block)
        → judge prev first ≡ again
        → Resumes sessions first.last rest
        → Resumes (opened s ∷ sessions) prev (record rest { sent = first.sent ++ rest.sent })
    again-Resumes rest q (chain, ends) =
        let g = download_blocks-Grown s prev in
        let new = some_new prev first g q in
        (
          IsChain-append prev first.sent rest.sent g.0
              (subst (λ t. IsChain id parent_id t rest.sent) g.1 chain),
          λ h. ends (omega (arith, length-append first.sent rest.sent)),
        )

  download_all-Resumes :
      (sessions : List (Session Block)) (prev : ℕ)
      → Resumes sessions prev (download_all id parent_id sessions prev)
  unfolding download_all
  download_all-Resumes [] prev = (tt, λ h. absurd (omega arith))
  download_all-Resumes (refused e ∷ sessions) prev = (tt, λ h. (some e, refl))
  download_all-Resumes (opened s ∷ sessions) prev =
      go (judge prev (first s sessions prev)) refl
        (download_all-Resumes sessions (first s sessions prev).last)
    where
      go :
          (v : Verdict)
          → judge prev (first s sessions prev) ≡ v
          → Resumes sessions
              (first s sessions prev).last
              (download_all id parent_id sessions (first s sessions prev).last)
          → Resumes
              (opened s ∷ sessions)
              prev
              (download_all id parent_id (opened s ∷ sessions) prev)
      go (stop r) q ih =
          subst (Resumes (opened s ∷ sessions) prev) (sym (stop-eq s sessions prev r q))
            ((download_blocks-Grown s prev).0, λ h. (r, refl))
      go again q ih =
          subst (Resumes (opened s ∷ sessions) prev) (sym (again-eq s sessions prev q))
            (again-Resumes s sessions prev _ q ih)

  -- DownloadAllBlocks over any sessions, each of which may fail or break off anywhere: the blocks
  -- that it sends, over all streams together, are a chain that begins at the given block.
  pub download_all-IsChain :
      (sessions : List (Session Block)) (prev : ℕ)
      → IsChain id parent_id prev (download_all id parent_id sessions prev).sent
  download_all-IsChain sessions prev = (download_all-Resumes sessions prev).0

  -- DownloadAllBlocks asks for a new session only after one that brought a new block: if there are
  -- more sessions than blocks that it sends, it returns.
  pub download_all-returns :
      (sessions : List (Session Block)) (prev : ℕ)
      → length (download_all id parent_id sessions prev).sent < length sessions
      → (e : Option Error) × ((download_all id parent_id sessions prev).ended ≡ returned e)
  download_all-returns sessions prev h = (download_all-Resumes sessions prev).1 h
