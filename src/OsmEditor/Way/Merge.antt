-- ===== src/OsmEditor/Way/Merge.antt =====
-- What joining two ways' node lists gives.
use osmmini.Base.{◌≡◌, ◌⊎◌, List, ◌++◌}
use osmmini.Base.Int.{ℤ}
use osmmini.OsmEditor.Way.{last, first, rest_of, reverse}

-- One way ends where the other begins, and the joined way runs along the one and on along the other,
-- with the node between them once.
abbrev pub Joins : List ℤ → List ℤ → List ℤ → Type 0
Joins one other m = (last one ≡ first other) × (m ≡ one ++ rest_of other)

-- The first way runs forwards, before or behind the second one, which runs either way.
abbrev pub IsJoined : List ℤ → List ℤ → List ℤ → Type 0
IsJoined a b m = Joins a b m ⊎ (Joins a (reverse b) m ⊎ (Joins b a m ⊎ Joins (reverse b) a m))
