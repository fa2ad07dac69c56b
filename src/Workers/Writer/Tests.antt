-- ===== src/Workers/Writer/Tests.antt =====
-- A writer that holds four bytes, and its theorem at it.
use pican.Base.{ℕ, ◌≤◌, ◌≡◌, refl, List, [], ◌∷◌, length}
use pican.Workers.Writer.{write, write_rest, contents}
use pican.Workers.Writer.Rounds.{last_of}
use pican.Workers.Writer.Tail.{blank, writes, joined, writes-contents}

abbrev chunks : List (List ℕ)
chunks = (1 ∷ 2 ∷ 3 ∷ []) ∷ (4 ∷ 5 ∷ 6 ∷ []) ∷ (7 ∷ []) ∷ []

turns : contents (writes (blank 4) chunks) ≡ 4 ∷ 5 ∷ 6 ∷ 7 ∷ []
unfolding contents write write_rest
turns = refl

writes-contents_example :
    (contents (writes (blank 4) chunks) ≡ last_of 4 (joined chunks))
    × (length (contents (writes (blank 4) chunks)) ≤ 4)
writes-contents_example = writes-contents 4 chunks
