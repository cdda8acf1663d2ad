-- ===== src/Database/Fetch.antt =====
-- sialite.go, fetchBlocks: the blocks that came since, from netlib into the database.
use sialite.Base.{
  ℕ, suc, ◌-◌, ◌≤◌, ◌≡◌, refl, sym, ap, ap₂, subst, ◌∙◌, true, Option, none, some, List, [], ◌∷◌,
  ◌++◌, length, length-append, get_elem?, ltb, le→ltb, if◌then◌else◌, Outcome, done, fail, crash, M,
  pure, ◌>>◌, arith,
}
use sialite.Netlib.{Stream, Session, opened, refused, Download, download_blocks}
use sialite.Netlib.Chain.{IsChain}
use sialite.Netlib.Resume.{download_blocks-Grown}
use sialite.Database.Types.{Currency, Block, Ids, Database}
use sialite.Database.Adding.{add_block, process_loop}
use sialite.Database.Outputs.{blocks_resolve}
use sialite.Database.Growth.{is_some, get-mid}
use sialite.Database.Blocks.{IsSound}
use sialite.Database.Extensions.{ResultOf}
use sialite.Database.Process.{limit, process_loop-Extended}

-- How a call of fetchBlocks ends; `waits` where the send of a block to the full channel, which
-- nothing reads yet, never returns.
pub data Fetched (C : Type 0) : Type 0 where
  finished : Outcome (Database C) (Unit {0}) → Fetched C
  waits : Fetched C

-- The value of a map of IDs, the zero ID for a missing key.
abbrev pub or_zero : Option ℕ → ℕ
or_zero none = 0
or_zero (some k) = k

module _ {C : Type 0} (money : Currency C) (ids : Ids C) where
  -- The loop over the closed channel.
  unfoldable pub add_blocks : List (Block C) → M (Database C) (Unit {0})
  add_blocks [] = pure tt
  add_blocks (b ∷ bs) = do add_block money ids b; add_blocks bs

  abbrev pub new_blocks : Database C → Stream (Block C) → Block C → Download (Block C)
  new_blocks db s prev =
      download_blocks ids.block_id (λ b. b.parent_id) s (or_zero (db.block2id prev.address))

  -- What is done with the blocks that a download has sent.
  unfoldable pub take_new : Download (Block C) → Database C → Fetched C
  unfolding add_blocks
  take_new d db = if ltb 20 (length d.sent) then waits else elim (d.failure) [
    | none ↦ finished (add_blocks d.sent db)
    | some e ↦ finished (fail e db)
  ]

  -- fetchBlocks
  unfoldable pub fetch_blocks : Session (Block C) → Database C → Fetched C
  unfolding take_new
  fetch_blocks (refused e) db = finished (fail e db)
  fetch_blocks (opened s) db = elim (get_elem? db.height2block (length db.height2block - 1)) [
    | none ↦ finished crash
    | some prev ↦ take_new (new_blocks db s prev) db
  ]

  add_blocks-process :
      (i : ℕ) (bs : List (Block C)) (db : Database C)
      → process_loop money ids 0 i bs db ≡ add_blocks bs db
  unfolding add_blocks process_loop
  add_blocks-process i [] db = refl
  add_blocks-process i (b ∷ bs) db = go (add_block money ids b db) (add_blocks-process (suc i) bs)
    where
      go :
          (o : Outcome (Database C) (Unit {0}))
          → ((s : Database C) → process_loop money ids 0 (suc i) bs s ≡ add_blocks bs s)
          → ◌≡◌ {A = Outcome (Database C) (Unit {0})}
              (elim o [
                | done a s ↦ process_loop money ids 0 (suc i) bs s
                | fail e s ↦ fail e s
                | crash ↦ crash
              ])
              (elim o [ done a s ↦ add_blocks bs s | fail e s ↦ fail e s | crash ↦ crash ])
      go (done a s) h = h s
      go (fail e s) h = refl
      go crash h = refl

  -- A sound database with blocks and a peer whose download after the last block succeeds with at
  -- most twenty blocks, which refer to siafund outputs and contracts that exist. fetchBlocks
  -- succeeds, the blocks that it took over are a chain on the last block, and the database is
  -- extended by just these.
  pub fetch_blocks-Extended :
      (s : Stream (Block C)) (db : Database C) (front : List (Block C)) (prev : Block C) (p : ℕ)
      → IsSound db
      → db.height2block ≡ front ++ prev ∷ []
      → db.block2id prev.address ≡ some p
      → (new_blocks db s prev).failure ≡ none
      → length (new_blocks db s prev).sent ≤ 20
      → blocks_resolve money ids
          (λ k. is_some (db.id2sfo k))
          (λ k. is_some (db.id2history k))
          (new_blocks db s prev).sent
        ≡ true
      → (t : Database C) × (fetch_blocks (opened s) db ≡ finished (done tt t))
        × IsChain ids.block_id (λ b. b.parent_id) p (new_blocks db s prev).sent
        × ResultOf money ids (new_blocks db s prev).sent db t
  unfolding fetch_blocks limit
  fetch_blocks-Extended s db front prev p sound whole known good few resolved =
      let d = new_blocks db s prev in
      let (t, run, g) = process_loop-Extended money ids 0 0 d.sent db sound resolved in
      let chain =
        (download_blocks-Grown ids.block_id (λ b. b.parent_id) s
          (or_zero (db.block2id prev.address))).0 in
      let last : get_elem? db.height2block (length db.height2block - 1) ≡ some prev =
        ap₂ get_elem? whole (omega (arith, ap length whole, length-append front (prev ∷ [])))
        ∙ get-mid front prev [] in
      (
        t,
        opens s db prev t last good few (sym (add_blocks-process 0 d.sent db) ∙ run),
        subst (λ k. IsChain ids.block_id (λ b. b.parent_id) k d.sent) (ap or_zero known) chain,
        g,
      )
    where
      opens :
          (s : Stream (Block C)) (db : Database C) (prev : Block C) (t : Database C)
          → get_elem? db.height2block (length db.height2block - 1) ≡ some prev
          → (new_blocks db s prev).failure ≡ none
          → length (new_blocks db s prev).sent ≤ 20
          → add_blocks (new_blocks db s prev).sent db ≡ done tt t
          → fetch_blocks (opened s) db ≡ finished (done tt t)
      opens s db prev t last good few run = rw (fetch_blocks, last, le→ltb _ _ few, good, run) refl
