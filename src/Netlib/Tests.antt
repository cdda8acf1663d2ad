-- ===== src/Netlib/Tests.antt =====
-- Downloads of concrete blocks, as pairs of an ID and a parent's ID.
use sialite.Base.{
  ℕ, ◌≡◌, refl, true, false, Option, none, some, [], ◌∷◌, Error, eof, bad_parent, length,
  if◌then◌else◌, ◌==◌, arith,
}
use sialite.Netlib.{
  received, no_blocks, Stream, opened, returned, download_blocks, download_all, judge,
}
use sialite.Netlib.Chain.{IsChain, tip, chain_prefix, offered, closing, download_blocks-offered}
use sialite.Netlib.Resume.{download_all-IsChain, download_all-returns}

abbrev Pair : Type 0
Pair = ℕ × ℕ

abbrev own : Pair → ℕ
own p = p.0

abbrev parent : Pair → ℕ
parent p = p.1

-- The second round has a block that does not follow.
abbrev forked : Stream Pair
forked = record {
  write_name = none;
  write_history = none;
  rounds = received ((1, 0) ∷ (2, 1) ∷ []) true ∷ received ((3, 2) ∷ (5, 4) ∷ []) false ∷ [];
}

-- A stream that breaks off, and one that has the rest.
abbrev broken : Stream Pair
broken = record {
  write_name = none;
  write_history = none;
  rounds = received ((1, 0) ∷ []) true ∷ no_blocks eof ∷ [];
}

abbrev rest : Stream Pair
rest = record {
  write_name = none;
  write_history = none;
  rounds = received ((2, 1) ∷ []) false ∷ [];
}

download_blocks-offered_example :
    let d = download_blocks own parent forked 0 in
    (d.sent ≡ (1, 0) ∷ (2, 1) ∷ (3, 2) ∷ [])
    × IsChain own parent 0 d.sent
    × (d.last ≡ tip own parent 0 d.sent)
    × (d.failure ≡ (if length d.sent == 4 then none else some bad_parent))
unfolding chain_prefix offered closing
download_blocks-offered_example = download_blocks-offered own parent forked 0 refl refl

download_all-IsChain_example :
    IsChain own parent 0 (download_all own parent (opened broken ∷ opened rest ∷ []) 0).sent
download_all-IsChain_example = download_all-IsChain own parent (opened broken ∷ opened rest ∷ []) 0

-- The second stream goes on where the first broke off.
download-rest :
    download_all own parent (opened broken ∷ opened rest ∷ []) 0
    ≡ record { sent = (1, 0) ∷ (2, 1) ∷ []; ended = returned none }
unfolding download_all judge
download-rest = refl

download_all-returns_example :
    (e : Option Error) × ((download_all own parent
        (opened broken ∷ opened rest ∷ opened rest ∷ [])
        0).ended
      ≡ returned e)
unfolding download_all judge
download_all-returns_example =
    download_all-returns own parent (opened broken ∷ opened rest ∷ opened rest ∷ []) 0 (omega arith)
