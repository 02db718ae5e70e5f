-- ===== src/Torrent/Parse/Paths.antt =====
-- safeJoin against the components that may stand in a path.
use weightless.Prelude.{
  ℕ, ◌≡◌, ◌≢◌, ◌↔◌, refl, sym, ap, ◌∙◌, false, Option, none, some, List, [], ◌∷◌, ◌++◌, Bytes,
  codes, ◌===◌, ===_iff, ◌==◌, All, after_prefix, arith, Bool-cases, inl, inr,
}
use weightless.Prelude.Path.{
  is_abs, volume_name, join_path, clean, clean_parts, is_skipped, reversed, slash_joined, non_empty,
  clean_some, or_dot, dot, dot_dot,
}
use weightless.Prelude.Split.{contains, split, split-lacks, split-append}
use weightless.Client.Storage.{resolve, is_some}
use weightless.Torrent.Parse.{safe_join, any_bad, is_bad_component}

-- Neither empty, nor "." or "..", nor with a separator of either flavour or a NUL.
pub record IsSafe (p : Bytes) : Type 0 where
  pub filled : p ≢ []
  pub not_dot : p ≢ dot
  pub not_dot_dot : p ≢ dot_dot
  pub no_slash : contains b'/' p ≡ false
  pub no_backslash : contains b'\\' p ≡ false
  pub no_nul : contains 0 p ≡ false

is_bad_component-IsSafe : (p : Bytes) → is_bad_component p ≡ false → IsSafe p
unfolding is_abs volume_name
is_bad_component-IsSafe p h = record {
  filled = ground (arith, h, ===_iff p []);
  not_dot = ground (arith, h, ===_iff p dot);
  not_dot_dot = ground (arith, h, ===_iff p dot_dot);
  no_slash = ground (arith, h);
  no_backslash = ground (arith, h);
  no_nul = ground (arith, h);
}

any_bad-IsSafe : (parts : List Bytes) → any_bad parts ≡ false → All IsSafe parts
any_bad-IsSafe [] h = tt
any_bad-IsSafe (p ∷ parts) h =
    let here : is_bad_component p ≡ false = ground (arith, h) in
    let there : any_bad parts ≡ false = ground (arith, h) in
    (is_bad_component-IsSafe p here, any_bad-IsSafe parts there)

non_empty-IsSafe : (parts : List Bytes) → All IsSafe parts → non_empty parts ≡ parts
non_empty-IsSafe [] h = refl
non_empty-IsSafe (p ∷ parts) (safe, rest) =
    let here : (p === []) ≡ false = ground (arith, ===_iff p [], safe.filled) in
    rw (here, non_empty-IsSafe parts rest) refl

split-slash_joined :
    (p : Bytes) (parts : List Bytes)
    → All IsSafe (p ∷ parts)
    → split b'/' (slash_joined (p ∷ parts)) ≡ p ∷ parts
split-slash_joined p [] (safe, rest) = split-lacks b'/' p safe.no_slash
split-slash_joined p (q ∷ parts) (safe, rest) =
    split-append b'/' p (slash_joined (q ∷ parts)) safe.no_slash
    ∙ ap (◌∷◌ p) (split-slash_joined q parts rest)

-- No component is left out, and none goes up.
clean_parts-IsSafe :
    (parts stack : List Bytes)
    → All IsSafe parts
    → clean_parts false parts stack ≡ reversed parts stack
unfolding clean_parts
clean_parts-IsSafe [] stack h = refl
clean_parts-IsSafe (p ∷ parts) stack (safe, rest) =
    let kept : is_skipped p ≡ false =
      ground (arith, ===_iff p [], ===_iff p dot, safe.filled, safe.not_dot) in
    let down : (p === dot_dot) ≡ false = ground (arith, ===_iff p dot_dot, safe.not_dot_dot) in
    rw (kept, down) (clean_parts-IsSafe parts (p ∷ stack) rest)

reversed-reversed : (xs acc : List Bytes) → reversed (reversed xs acc) [] ≡ reversed acc xs
reversed-reversed [] acc = refl
reversed-reversed (x ∷ xs) acc = reversed-reversed xs (x ∷ acc)

-- A joined path begins with a byte other than the separator.
record Starts (s : Bytes) : Type 0 where
  first : ℕ
  tail : Bytes
  whole : s ≡ first ∷ tail
  relative : (first == b'/') ≡ false

slash_joined-Starts :
    (p : Bytes) (parts : List Bytes) → All IsSafe (p ∷ parts) → Starts (slash_joined (p ∷ parts))
slash_joined-Starts [] parts (safe, rest) = absurd (safe.filled refl)
slash_joined-Starts (c ∷ s) [] (safe, rest) = record {
  first = c;
  tail = s;
  whole = refl;
  relative = ground (arith, safe.no_slash);
}
slash_joined-Starts (c ∷ s) (q ∷ parts) (safe, rest) = record {
  first = c;
  tail = s ++ b'/' ∷ slash_joined (q ∷ parts);
  whole = refl;
  relative = ground (arith, safe.no_slash);
}

pub slash_joined-is_abs :
    (p : Bytes) (parts : List Bytes)
    → All IsSafe (p ∷ parts)
    → is_abs (slash_joined (p ∷ parts)) ≡ false
unfolding is_abs
slash_joined-is_abs p parts safe =
    let s = slash_joined-Starts p parts safe in ap is_abs s.whole ∙ s.relative

or_dot-Starts : (s : Bytes) → Starts s → or_dot s ≡ s
or_dot-Starts s h = ap or_dot h.whole ∙ sym h.whole

clean_some-Starts : (s : Bytes) → Starts s → clean_some s ≡ clean s
clean_some-Starts s h = ap clean_some h.whole ∙ ap clean (sym h.whole)

pub clean-slash_joined :
    (p : Bytes) (parts : List Bytes)
    → All IsSafe (p ∷ parts)
    → clean (slash_joined (p ∷ parts)) ≡ slash_joined (p ∷ parts)
unfolding clean
clean-slash_joined p parts safe =
    let path = slash_joined (p ∷ parts) in
    let back : reversed (reversed (p ∷ parts) []) [] ≡ p ∷ parts =
      reversed-reversed (p ∷ parts) [] in
    rw
      (
        slash_joined-is_abs p parts safe,
        split-slash_joined p parts safe,
        clean_parts-IsSafe (p ∷ parts) [] safe,
        back,
      )
      (or_dot-Starts path (slash_joined-Starts p parts safe))

join_path-IsSafe :
    (p : Bytes) (parts : List Bytes)
    → All IsSafe (p ∷ parts)
    → join_path (p ∷ parts) ≡ slash_joined (p ∷ parts)
unfolding join_path
join_path-IsSafe p parts safe =
    ap (λ ps. clean_some (slash_joined ps)) (non_empty-IsSafe (p ∷ parts) safe)
    ∙ clean_some-Starts (slash_joined (p ∷ parts)) (slash_joined-Starts p parts safe)
    ∙ clean-slash_joined p parts safe

IsSafe-is_bad_component : (p : Bytes) → IsSafe p → is_bad_component p ≡ false
unfolding is_abs volume_name
IsSafe-is_bad_component [] safe = absurd (safe.filled refl)
IsSafe-is_bad_component (c ∷ s) safe =
    let not_dot : ((c ∷ s) === dot) ≡ false = ground (arith, ===_iff (c ∷ s) dot, safe.not_dot) in
    let not_dot_dot : ((c ∷ s) === dot_dot) ≡ false =
      ground (arith, ===_iff (c ∷ s) dot_dot, safe.not_dot_dot) in
    ground (arith, safe.no_slash, safe.no_backslash, safe.no_nul)

any_bad-false : (parts : List Bytes) → All IsSafe parts → any_bad parts ≡ false
any_bad-false [] safe = refl
any_bad-false (p ∷ parts) (safe, rest) =
    rw (IsSafe-is_bad_component p safe) (any_bad-false parts rest)

some_injective : {a b : Bytes} → some a ≡ some b → a ≡ b
some_injective h = cc

-- What a joined path is
pub record IsJoined (parts : List Bytes) (path : Bytes) : Type 0 where
  pub some_part : parts ≢ []
  pub safe : All IsSafe parts
  pub joined : path ≡ slash_joined parts

pub safe_join-IsSafe :
    (p : Bytes) (parts : List Bytes)
    → All IsSafe (p ∷ parts)
    → safe_join (p ∷ parts) ≡ some (slash_joined (p ∷ parts))
unfolding safe_join
safe_join-IsSafe p parts safe =
    rw
      (
        any_bad-false (p ∷ parts) safe,
        join_path-IsSafe p parts safe,
        slash_joined-is_abs p parts safe,
      )
      refl

safe_join-IsJoined :
    (parts : List Bytes) (path : Bytes) → safe_join parts ≡ some path → IsJoined parts path
unfolding safe_join
safe_join-IsJoined [] path h = cc
safe_join-IsJoined (p ∷ parts) path h = elim (Bool-cases (any_bad (p ∷ parts))) [
  | inl bad ↦ ground (arith, h, bad)
  | inr good ↦
      let safe = any_bad-IsSafe (p ∷ parts) good in
      record {
        some_part = cc;
        safe = safe;
        joined = some_injective (sym h ∙ safe_join-IsSafe p parts safe);
      }
]

-- safeJoin accepts exactly the lists of at least one component in which each component is not empty, not "." or "..", and without a separator of either flavour or a NUL, and it returns their join with "/".
pub safe_join_iff :
    (parts : List Bytes) (path : Bytes) → (safe_join parts ≡ some path) ↔ IsJoined parts path
safe_join_iff parts path = (safe_join-IsJoined parts path, back parts)
  where
    back : (parts : List Bytes) → IsJoined parts path → safe_join parts ≡ some path
    back [] j = absurd (j.some_part refl)
    back (p ∷ parts) j = safe_join-IsSafe p parts j.safe ∙ ap some (sym j.joined)

contains-dot_dot :
    (s : Bytes) (rest : Bytes)
    → after_prefix (codes "../") s ≡ some rest
    → s ≡ dot_dot ++ b'/' ∷ rest
contains-dot_dot s rest h = ground (arith, h)

first_eq : {p q : Bytes} {ps qs : List Bytes} → p ∷ ps ≡ q ∷ qs → p ≡ q
first_eq h = cc

not_above :
    (p : Bytes) (parts : List Bytes) (rest : Bytes)
    → All IsSafe (p ∷ parts)
    → slash_joined (p ∷ parts) ≢ dot_dot ++ b'/' ∷ rest
not_above p parts rest safe e =
    let cut : p ∷ parts ≡ dot_dot ∷ split b'/' rest =
      sym (split-slash_joined p parts safe)
      ∙ ap (split b'/') e
      ∙ split-append b'/' dot_dot rest refl in
    safe.0.not_dot_dot (first_eq cut)

pub not_alone :
    (p : Bytes) (parts : List Bytes) (q : Bytes)
    → All IsSafe (p ∷ parts)
    → contains b'/' q ≡ false
    → slash_joined (p ∷ parts) ≡ q
    → p ≡ q
not_alone p parts q safe lacks e =
    first_eq (sym (split-slash_joined p parts safe) ∙ ap (split b'/') e ∙ split-lacks b'/' q lacks)

no_prefix :
    (s : Bytes)
    → ((rest : Bytes) → after_prefix (codes "../") s ≢ some rest)
    → is_some (after_prefix (codes "../") s) ≡ false
no_prefix s h = go (after_prefix (codes "../") s) refl
  where
    go : (found : Option Bytes) → after_prefix (codes "../") s ≡ found → is_some found ≡ false
    go none e = refl
    go (some rest) e = absurd (h rest e)

resolve-slash_joined :
    (p : Bytes) (parts : List Bytes)
    → All IsSafe (p ∷ parts)
    → resolve (slash_joined (p ∷ parts)) ≡ some (slash_joined (p ∷ parts))
unfolding resolve volume_name
resolve-slash_joined p parts safe =
    let s = slash_joined (p ∷ parts) in
    let start = slash_joined-Starts p parts safe in
    let filled : (s === []) ≡ false = ap (λ t. t === []) start.whole in
    let alone : (q : Bytes) → contains b'/' q ≡ false → p ≢ q → (s === q) ≡ false =
      λ q lacks other. ground (arith, ===_iff s q, not_alone p parts q safe lacks, other) in
    let below : is_some (after_prefix (codes "../") s) ≡ false =
      no_prefix s (λ rest e. not_above p parts rest safe (contains-dot_dot s rest e)) in
    rw
      (
        filled,
        slash_joined-is_abs p parts safe,
        clean-slash_joined p parts safe,
        alone dot refl safe.0.not_dot,
        alone dot_dot refl safe.0.not_dot_dot,
        below,
      )
      refl

-- A path that safeJoin returns is one that the storage takes, unchanged.
pub resolve-safe_join :
    (parts : List Bytes) (path : Bytes) → safe_join parts ≡ some path → resolve path ≡ some path
resolve-safe_join parts path h = go parts (safe_join-IsJoined parts path h)
  where
    go : (parts : List Bytes) → IsJoined parts path → resolve path ≡ some path
    go [] j = absurd (j.some_part refl)
    go (p ∷ parts) j =
        ap resolve j.joined ∙ resolve-slash_joined p parts j.safe ∙ ap some (sym j.joined)
