-- ===== src/Tracker/Query.antt =====
-- url.Values of net/http: each key has a list of values.
use weightless.Prelude.{Bytes, List, [], ◌∷◌, Option, none, some, ◌≡◌, ◌===◌, if◌then◌else◌, arith}
use weightless.Prelude.Dict
use weightless.Prelude.Dict.{Dict, get-put}

abbrev pub Query : Type 0
Query = Dict (List Bytes)

abbrev pub first_value : Option (List Bytes) → Bytes
first_value none = []
first_value (some []) = []
first_value (some (v ∷ vs)) = v

-- Values.Get: the first value, or the empty string.
unfoldable pub get : Bytes → Query → Bytes
get k q = first_value (Dict.get k q)

-- Values.Set: one value in place of all that were there.
unfoldable pub set : Bytes → Bytes → Query → Query
set k v q = Dict.put k (v ∷ []) q

-- q["k"]: all values
pub all_values : Bytes → Query → List Bytes
all_values k q = elim (Dict.get k q) [ none ↦ [] | some vs ↦ vs ]

pub get-set : (k j v : Bytes) (q : Query) → get j (set k v q) ≡ (if k === j then v else get j q)
unfolding get set
get-set k j v q = rw get-put (ground arith)
