-- ===== src/Netlib/Chain.antt =====
-- DownloadBlocks sends a chain of blocks: what it sends, and how it ends.
use sialite.Base.{
  ℕ, suc, ◌≡◌, refl, sym, ap, subst, ◌∙◌, true, false, inl, inr, Bool-cases, Option, none, some,
  List, [], ◌∷◌, ◌++◌, append-nil, length, ◌==◌, ==→eq, if◌then◌else◌, Error, eof, cancelled,
  bad_parent, arith,
}
use sialite.Netlib.{
  Round, is_done, no_blocks, no_flag, received, Stream, Download, stopped, after, send_blocks,
  download_loop, download_blocks,
}

module _ {Block : Type 0} (id parent_id : Block → ℕ) where
  -- Each block's parent is the block before it.
  abbrev pub IsChain : ℕ → List Block → Type 0
  IsChain prev [] = Unit
  IsChain prev (b ∷ bs) = (parent_id b ≡ prev) × IsChain (id b) bs

  -- The ID of the last block.
  abbrev pub tip : ℕ → List Block → ℕ
  tip prev [] = prev
  tip prev (b ∷ bs) = tip (id b) bs

  -- The longest chain at the front of a list.
  unfoldable pub chain_prefix : ℕ → List Block → List Block
  chain_prefix prev [] = []
  chain_prefix prev (b ∷ bs) =
      let rest = chain_prefix (id b) bs in if parent_id b == prev then b ∷ rest else []

  -- The blocks of the rounds, up to the first that ends the loop.
  unfoldable pub offered : List (Round Block) → List Block
  offered (received bs more ∷ rounds) =
      let rest = offered rounds in bs ++ (if more then rest else [])
  offered _ = []

  -- How that round ends it.
  unfoldable pub closing : List (Round Block) → Option Error
  closing [] = some eof
  closing (is_done ∷ rounds) = some cancelled
  closing (no_blocks e ∷ rounds) = some e
  closing (no_flag bs e ∷ rounds) = some e
  closing (received bs more ∷ rounds) = let rest = closing rounds in if more then rest else none

  -- What a download of these blocks is to be, if it can end in this way.
  unfoldable pub expected : ℕ → List Block → Option Error → Download Block
  expected prev [] e = stopped id parent_id prev e
  expected prev (b ∷ bs) e =
      let rest = expected (id b) bs e in
      if parent_id b == prev
      then after id parent_id (b ∷ []) rest
      else stopped id parent_id prev (some bad_parent)

  chain_prefix-IsChain : (prev : ℕ) (bs : List Block) → IsChain prev (chain_prefix prev bs)
  unfolding chain_prefix
  chain_prefix-IsChain prev [] = tt
  chain_prefix-IsChain prev (b ∷ bs) = elim (Bool-cases (parent_id b == prev)) [
    | inl e ↦ rw e (==→eq (parent_id b) prev e, chain_prefix-IsChain (id b) bs)
    | inr e ↦ rw e tt
  ]

  expected-sent :
      (prev : ℕ) (bs : List Block) (e : Option Error)
      → (expected prev bs e).sent ≡ chain_prefix prev bs
  unfolding expected chain_prefix
  expected-sent prev [] e = refl
  expected-sent prev (b ∷ bs) e = elim (Bool-cases (parent_id b == prev)) [
    | inl q ↦ rw q (ap (◌∷◌ b) (expected-sent (id b) bs e))
    | inr q ↦ rw q refl
  ]

  expected-last :
      (prev : ℕ) (bs : List Block) (e : Option Error)
      → (expected prev bs e).last ≡ tip prev (chain_prefix prev bs)
  unfolding expected chain_prefix
  expected-last prev [] e = refl
  expected-last prev (b ∷ bs) e = elim (Bool-cases (parent_id b == prev)) [
    | inl q ↦ rw q (expected-last (id b) bs e)
    | inr q ↦ rw q refl
  ]

  suc_eq : (m n : ℕ) → (m == n) ≡ (suc m == suc n)
  suc_eq m n = ground arith

  suc_ne : (n : ℕ) → false ≡ (0 == suc n)
  suc_ne n = ground arith

  expected-failure :
      (prev : ℕ) (bs : List Block) (e : Option Error)
      → (expected prev bs e).failure
        ≡ (if length (chain_prefix prev bs) == length bs then e else some bad_parent)
  unfolding expected chain_prefix
  expected-failure prev [] e = refl
  expected-failure prev (b ∷ bs) e = elim (Bool-cases (parent_id b == prev)) [
    | inl q ↦
        rw q
          (expected-failure (id b) bs e ∙ ap (λ t. if t then e else some bad_parent) (suc_eq _ _))
    | inr q ↦ rw q (ap (λ t. if t then e else some bad_parent) (suc_ne (length bs)))
  ]

  -- A download, and another one if it has no error.
  abbrev go_on : Download Block → (ℕ → Download Block) → Download Block
  go_on d k = elim (d.failure) [ some e ↦ d | none ↦ after id parent_id d.sent (k d.last) ]

  go_on-after :
      (b : Block) (d : Download Block) (k : ℕ → Download Block)
      → go_on (after id parent_id (b ∷ []) d) k ≡ after id parent_id (b ∷ []) (go_on d k)
  go_on-after b d k = go d.failure
    where
      go :
          (f : Option Error)
          → go_on (record d { sent = b ∷ d.sent; failure = f }) k
            ≡ after id parent_id (b ∷ []) (go_on (record d { failure = f }) k)
      go none = refl
      go (some e) = refl

  go_on_ext :
      (d : Download Block) (k k' : ℕ → Download Block)
      → ((l : ℕ) → k l ≡ k' l)
      → go_on d k ≡ go_on d k'
  go_on_ext d k k' h = go d.failure
    where
      go :
          (f : Option Error)
          → go_on (record d { failure = f }) k ≡ go_on (record d { failure = f }) k'
      go none = ap (after id parent_id d.sent) (h d.last)
      go (some e) = refl

  expected-append :
      (prev : ℕ) (bs bs' : List Block) (e : Option Error)
      → expected prev (bs ++ bs') e ≡ go_on (expected prev bs none) (λ l. expected l bs' e)
  unfolding expected
  expected-append prev [] bs' e = refl
  expected-append prev (b ∷ bs) bs' e = elim (Bool-cases (parent_id b == prev)) [
    | inl q ↦ rw q (
        ap (after id parent_id (b ∷ [])) (expected-append (id b) bs bs' e)
        ∙ sym (go_on-after b (expected (id b) bs none) (λ l. expected l bs' e)))
    | inr q ↦ rw q refl
  ]

  send_blocks-expected :
      (prev : ℕ) (bs : List Block) → send_blocks id parent_id prev bs ≡ expected prev bs none
  unfolding send_blocks expected
  send_blocks-expected prev [] = refl
  send_blocks-expected prev (b ∷ bs) = rw (send_blocks-expected (id b) bs) refl

  pub download_loop-expected :
      (rounds : List (Round Block)) (prev : ℕ)
      → download_loop id parent_id rounds prev ≡ expected prev (offered rounds) (closing rounds)
  unfolding download_loop expected offered closing
  download_loop-expected [] prev = refl
  download_loop-expected (is_done ∷ rounds) prev = refl
  download_loop-expected (no_blocks e ∷ rounds) prev = refl
  download_loop-expected (no_flag bs e ∷ rounds) prev = refl
  download_loop-expected (received bs false ∷ rounds) prev =
      either (send_blocks id parent_id prev bs)
      ∙ send_blocks-expected prev bs
      ∙ ap (λ bs. expected prev bs none) (sym (append-nil bs))
    where
      either :
          (d : Download Block)
          → (elim (d.failure) as (λ f. Download Block) [ some e ↦ d | none ↦ d ]) ≡ d
      either d = go d.failure
        where
          go : (f : Option Error) → (elim f as (λ f. Download Block) [ some e ↦ d | none ↦ d ]) ≡ d
          go none = refl
          go (some e) = refl
  download_loop-expected (received bs true ∷ rounds) prev =
      go_on_ext (send_blocks id parent_id prev bs) (download_loop id parent_id rounds)
        (λ l. expected l (offered rounds) (closing rounds)) (download_loop-expected rounds)
      ∙ ap (λ d. go_on d (λ l. expected l (offered rounds) (closing rounds)))
          (send_blocks-expected prev bs)
      ∙ sym (expected-append prev bs (offered rounds) (closing rounds))

  -- What a download that was offered these blocks comes to.
  abbrev pub Meets : ℕ → List Block → Option Error → Download Block → Type 0
  Meets prev bs e d =
      (d.sent ≡ chain_prefix prev bs)
      × IsChain prev d.sent
      × (d.last ≡ tip prev d.sent)
      × (d.failure ≡ (if length d.sent == length bs then e else some bad_parent))

  pub expected-Meets :
      (prev : ℕ) (bs : List Block) (e : Option Error) → Meets prev bs e (expected prev bs e)
  expected-Meets prev bs e =
      let q = expected-sent prev bs e in
      (
        q,
        subst (IsChain prev) (sym q) (chain_prefix-IsChain prev bs),
        expected-last prev bs e ∙ ap (tip prev) (sym q),
        expected-failure prev bs e
            ∙ ap (λ xs. if length xs == length bs then e else some bad_parent) (sym q),
      )

  -- A request whose two writes succeed. DownloadBlocks sends the longest chain that begins at the given
  -- block at the front of the blocks that the peer offers before the loop ends, and returns the ID of
  -- the last one; the error is that of the round that ends the loop, which is none where the peer
  -- has no more blocks, or that of a bad parent where an offered block was not sent.
  pub download_blocks-offered :
      (s : Stream Block) (prev : ℕ)
      → s.write_name ≡ none
      → s.write_history ≡ none
      → let d = download_blocks id parent_id s prev in
        (d.sent ≡ chain_prefix prev (offered s.rounds))
        × IsChain prev d.sent
        × (d.last ≡ tip prev d.sent)
        × (d.failure ≡ (
            if length d.sent == length (offered s.rounds)
            then closing s.rounds
            else some bad_parent))
  unfolding download_blocks
  download_blocks-offered s prev e f =
      let whole : download_blocks id parent_id s prev
          ≡ expected prev (offered s.rounds) (closing s.rounds) =
        rw (e, f) (download_loop-expected s.rounds prev) in
      subst (Meets prev (offered s.rounds) (closing s.rounds)) (sym whole)
        (expected-Meets prev (offered s.rounds) (closing s.rounds))
