-- ===== src/Netlib.antt =====
-- netlib/netlib.go: the download of blocks from a peer.
pub mod Chain
pub mod Resume
mod Tests
use sialite.Base.{
  ℕ, Bool, true, false, Option, none, some, List, [], ◌∷◌, ◌++◌, ◌==◌, if◌then◌else◌, Error, eof,
  unexpected_eof, cancelled, bad_parent,
}

-- What the peer and the context do in a round of the loop of DownloadBlocks: the context is
-- done, the slice of blocks cannot be read, the flag after it cannot be read, or both are read.
pub data Round (Block : Type 0) : Type 0 where
  is_done : Round Block
  no_blocks : Error → Round Block
  no_flag : List Block → Error → Round Block
  received : List Block → Bool → Round Block

-- A stream: how the two writes of the request end, and the rounds. A stream without further
-- rounds is at its end.
pub record Stream (Block : Type 0) : Type 0 where
  pub write_name : Option Error
  pub write_history : Option Error
  pub rounds : List (Round Block)

-- The blocks sent to `bchan`, the ID and the error that are returned.
pub record Download (Block : Type 0) : Type 0 where
  pub sent : List Block
  pub last : ℕ
  pub failure : Option Error

-- What `sess()` returns.
pub data Session (Block : Type 0) : Type 0 where
  opened : Stream Block → Session Block
  refused : Error → Session Block

-- How DownloadAllBlocks ends; `waiting` where it calls `sess` more often than the list has answers.
pub data Ended : Type 0 where
  returned : Option Error → Ended
  waiting : Ended

pub record Run (Block : Type 0) : Type 0 where
  pub sent : List Block
  pub ended : Ended

-- The tests after a call of DownloadBlocks: whether the loop goes on, or how it ends.
pub data Verdict : Type 0 where
  stop : Option Error → Verdict
  again : Verdict

-- `err == io.EOF || err == io.ErrUnexpectedEOF`
unfoldable pub is_eof : Error → Bool
is_eof eof = true
is_eof unexpected_eof = true
is_eof _ = false

unfoldable pub judge : {Block : Type 0} → ℕ → Download Block → Verdict
unfolding is_eof
judge prev d = elim (d.failure) [
  | none ↦ stop none
  | some e ↦ if d.last == prev then stop none else if is_eof e then again else stop (some e)
]

-- The blocks of package types, with their `ID()` and their field `ParentID`.
module _ {Block : Type 0} (id parent_id : Block → ℕ) where
  abbrev pub stopped : ℕ → Option Error → Download Block
  stopped prev e = record { sent = []; last = prev; failure = e }

  abbrev pub after : List Block → Download Block → Download Block
  after bs d = record d { sent = bs ++ d.sent }

  -- The loop over `newBlocks`.
  unfoldable pub send_blocks : ℕ → List Block → Download Block
  send_blocks prev [] = stopped prev none
  send_blocks prev (b ∷ bs) =
      let rest = send_blocks (id b) bs in
      if parent_id b == prev then after (b ∷ []) rest else stopped prev (some bad_parent)

  -- The loop over the rounds; `moreAvailable` ends it.
  unfoldable pub download_loop : List (Round Block) → ℕ → Download Block
  unfolding send_blocks
  download_loop [] prev = stopped prev (some eof)
  download_loop (is_done ∷ rounds) prev = stopped prev (some cancelled)
  download_loop (no_blocks e ∷ rounds) prev = stopped prev (some e)
  download_loop (no_flag bs e ∷ rounds) prev = stopped prev (some e)
  download_loop (received bs more ∷ rounds) prev =
      let d = send_blocks prev bs in
      let rest = download_loop rounds d.last in
      elim (d.failure) [ some e ↦ d | none ↦ if more then after d.sent rest else d ]

  -- DownloadBlocks
  unfoldable pub download_blocks : Stream Block → ℕ → Download Block
  unfolding download_loop
  download_blocks s prev = elim (s.write_name) [
    | some e ↦ stopped prev (some e)
    | none ↦ elim (s.write_history) [
      | some e ↦ stopped prev (some e)
      | none ↦ download_loop s.rounds prev
    ]
  ]

  -- DownloadAllBlocks
  unfoldable pub download_all : List (Session Block) → ℕ → Run Block
  unfolding download_blocks
  download_all [] prev = record { sent = []; ended = waiting }
  download_all (refused e ∷ sessions) prev = record { sent = []; ended = returned (some e) }
  download_all (opened s ∷ sessions) prev =
      let d = download_blocks s prev in
      let rest = download_all sessions d.last in
      elim (judge prev d) [
        | stop r ↦ record { sent = d.sent; ended = returned r }
        | again ↦ record rest { sent = d.sent ++ rest.sent }
      ]
