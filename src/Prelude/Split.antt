-- ===== src/Prelude/Split.antt =====
-- Cutting text at a byte (strings.Split, strings.Trim, strings.IndexByte).
use weightless.Prelude.Tests.{◌==◌, if◌then◌else◌}
use weightless.Prelude.Text.{Bytes}
use Prim.Native.Nat.{ℕ}
use mathlib.Core.Path.{◌≡◌, refl}
use mathlib.Core.Bool.{Bool, true, false, ◌&&◌, ◌||◌}
use mathlib.Core.List.{List, [], ◌∷◌, ◌++◌}
use mathlib.Core.Option.{Option, none, some}
use native.Mathlib.Omega.{arith}

abbrev pub contains : ℕ → Bytes → Bool
contains c [] = false
contains c (x ∷ s) = x == c || contains c s

abbrev in_front : ℕ → Option (Bytes × Bytes) → Option (Bytes × Bytes)
in_front x none = none
in_front x (some (a, b)) = some (x ∷ a, b)

-- What stands before the first `c`, and behind it.
abbrev pub cut_first : ℕ → Bytes → Option (Bytes × Bytes)
cut_first c [] = none
cut_first c (x ∷ s) = let rest = in_front x (cut_first c s) in if x == c then some ([], s) else rest

abbrev push_front : ℕ → List Bytes → List Bytes
push_front x [] = (x ∷ []) ∷ []
push_front x (p ∷ ps) = (x ∷ p) ∷ ps

-- strings.Split: at least one part.
unfoldable pub split : ℕ → Bytes → List Bytes
split c [] = [] ∷ []
split c (x ∷ s) = let rest = split c s in if x == c then [] ∷ rest else push_front x rest

-- strings.TrimLeft of one byte
abbrev pub trim_left : ℕ → Bytes → Bytes
trim_left c [] = []
trim_left c (x ∷ s) = let rest = trim_left c s in if x == c then rest else x ∷ s

abbrev is_nil : Bytes → Bool
is_nil [] = true
is_nil (x ∷ s) = false

-- strings.TrimRight of one byte
abbrev pub trim_right : ℕ → Bytes → Bytes
trim_right c [] = []
trim_right c (x ∷ s) = let rest = trim_right c s in if is_nil rest && x == c then [] else x ∷ rest

-- strings.Trim of one byte: at both ends
abbrev pub trim : ℕ → Bytes → Bytes
trim c s = trim_right c (trim_left c s)

trim_right-lacks : (c : ℕ) (s : Bytes) → contains c s ≡ false → trim_right c s ≡ s
trim_right-lacks c [] h = refl
trim_right-lacks c (x ∷ s) h = ground (arith, trim_right-lacks c s)

is_nil-append : (a : Bytes) (x : ℕ) (s : Bytes) → is_nil (a ++ x ∷ s) ≡ false
is_nil-append [] x s = refl
is_nil-append (y ∷ a) x s = refl

-- Nothing is trimmed behind a part that is there and lacks the byte.
pub trim_right-append :
    (c : ℕ) (a : Bytes) (x : ℕ) (s : Bytes)
    → contains c (x ∷ s) ≡ false
    → trim_right c (a ++ x ∷ s) ≡ a ++ x ∷ s
trim_right-append c [] x s h = trim_right-lacks c (x ∷ s) h
trim_right-append c (y ∷ a) x s h = rw (trim_right-append c a x s h, is_nil-append a x s)

pub cut_first-append :
    (c : ℕ) (a b : Bytes) → contains c a ≡ false → cut_first c (a ++ c ∷ b) ≡ some (a, b)
cut_first-append c [] b h = ground arith
cut_first-append c (x ∷ a) b h = ground (arith, cut_first-append c a b)

pub contains-append : (c : ℕ) (a b : Bytes) → contains c (a ++ b) ≡ (contains c a || contains c b)
contains-append c [] b = refl
contains-append c (x ∷ a) b = ground (arith, contains-append c a b)

pub split-lacks : (c : ℕ) (a : Bytes) → contains c a ≡ false → split c a ≡ a ∷ []
unfolding split
split-lacks c [] h = refl
split-lacks c (x ∷ a) h = ground (arith, split-lacks c a)

-- A text that lacks the separator is the first part.
pub split-append :
    (c : ℕ) (a b : Bytes) → contains c a ≡ false → split c (a ++ c ∷ b) ≡ a ∷ split c b
unfolding split
split-append c [] b h = ground arith
split-append c (x ∷ a) b h = ground (arith, split-append c a b)

split-ne-nil : (c : ℕ) (s : Bytes) → split c s ≡ [] → ⊥
unfolding split
split-ne-nil c [] h = cc
split-ne-nil c (x ∷ s) h = ground (arith, split-ne-nil c s)

split_one : (c : ℕ) (s a : Bytes) → split c s ≡ a ∷ [] → (s ≡ a) × (contains c a ≡ false)
unfolding split
split_one c [] a h = ground arith
split_one c (x ∷ s) a h = one (split_one c s) (split c s) refl h
  where
    one :
        ((p : Bytes) → split c s ≡ p ∷ [] → (s ≡ p) × (contains c p ≡ false))
        → (parts : List Bytes) → split c s ≡ parts
        → (if x == c then [] ∷ parts else push_front x parts) ≡ a ∷ []
        → (x ∷ s ≡ a) × (contains c a ≡ false)
    one ih [] e k = absurd (split-ne-nil c s e)
    one ih (p ∷ []) e k = ground (arith, ih p e)
    one ih (p ∷ q ∷ ps) e k = ground arith

-- Two parts are what stands around the one separator.
pub split_two :
    (c : ℕ) (s a b : Bytes)
    → split c s ≡ a ∷ b ∷ []
    → (s ≡ a ++ c ∷ b) × (contains c a ≡ false) × (contains c b ≡ false)
unfolding split
split_two c [] a b h = ground arith
split_two c (x ∷ s) a b h = two (split_two c s) (split c s) refl h
  where
    two :
        ((p q : Bytes)
          → split c s ≡ p ∷ q ∷ []
          → (s ≡ p ++ c ∷ q) × (contains c p ≡ false) × (contains c q ≡ false))
        → (parts : List Bytes) → split c s ≡ parts
        → (if x == c then [] ∷ parts else push_front x parts) ≡ a ∷ b ∷ []
        → (x ∷ s ≡ a ++ c ∷ b) × (contains c a ≡ false) × (contains c b ≡ false)
    two ih [] e k = absurd (split-ne-nil c s e)
    two ih (p ∷ []) e k = ground (arith, split_one c s p e)
    two ih (p ∷ q ∷ []) e k = ground (arith, ih p q e)
    two ih (p ∷ q ∷ r ∷ ps) e k = ground arith
