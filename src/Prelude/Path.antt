-- ===== src/Prelude/Path.antt =====
-- path/filepath on Unix: IsAbs, VolumeName, Clean and Join.
use weightless.Prelude.Tests.{◌==◌, if◌then◌else◌}
use weightless.Prelude.Text.{Bytes, codes, ◌===◌}
use weightless.Prelude.Split.{split}
use mathlib.Core.Bool.{Bool, true, false, ◌||◌}
use mathlib.Core.List.{List, [], ◌∷◌, ◌++◌}

unfoldable pub is_abs : Bytes → Bool
is_abs [] = false
is_abs (c ∷ s) = c == b'/'

-- There are no volumes.
unfoldable pub volume_name : Bytes → Bytes
volume_name s = []

abbrev pub dot : Bytes
dot = codes "."

abbrev pub dot_dot : Bytes
dot_dot = codes ".."

abbrev pub is_skipped : Bytes → Bool
is_skipped part = part === [] || part === dot

-- `..` takes back the last component, stays at the root, and is kept in front of a relative path.
abbrev pub go_up : Bool → List Bytes → List Bytes
go_up true [] = []
go_up false [] = dot_dot ∷ []
go_up rooted (top ∷ stack) = if top === dot_dot then dot_dot ∷ top ∷ stack else stack

-- The components that are kept, the last in front.
unfoldable pub clean_parts : Bool → List Bytes → List Bytes → List Bytes
clean_parts rooted [] stack = stack
clean_parts rooted (part ∷ parts) stack = clean_parts rooted parts (
    if is_skipped part
    then stack
    else if part === dot_dot
    then go_up rooted stack
    else part ∷ stack)

abbrev pub reversed {ℓ} : {A : Type ℓ} → List A → List A → List A
reversed [] acc = acc
reversed (x ∷ xs) acc = reversed xs (x ∷ acc)

-- strings.Join with "/"
abbrev pub slash_joined : List Bytes → Bytes
slash_joined [] = []
slash_joined (part ∷ []) = part
slash_joined (part ∷ next ∷ parts) = part ++ b'/' ∷ slash_joined (next ∷ parts)

abbrev pub or_dot : Bytes → Bytes
or_dot [] = dot
or_dot (c ∷ s) = c ∷ s

unfoldable pub clean : Bytes → Bytes
unfolding clean_parts is_abs
clean s =
    let kept = slash_joined (reversed (clean_parts (is_abs s) (split b'/' s) []) []) in
    if is_abs s then b'/' ∷ kept else or_dot kept

abbrev pub non_empty : List Bytes → List Bytes
non_empty [] = []
non_empty (part ∷ parts) = if part === [] then non_empty parts else part ∷ non_empty parts

abbrev pub clean_some : Bytes → Bytes
clean_some [] = []
clean_some (c ∷ s) = clean (c ∷ s)

-- Empty elements are left out, and nothing is joined to the empty path.
unfoldable pub join_path : List Bytes → Bytes
unfolding clean
join_path parts = clean_some (slash_joined (non_empty parts))
