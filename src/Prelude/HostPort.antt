-- ===== src/Prelude/HostPort.antt =====
-- net.SplitHostPort and net.JoinHostPort.
use weightless.Prelude.Tests.{◌==◌, if◌then◌else◌, Bool-cases}
use weightless.Prelude.Text.{Bytes}
use weightless.Prelude.Split.{contains, cut_first, cut_first-append, contains-append}
use mathlib.Core.Path.{◌≡◌}
use mathlib.Core.Bool.{Bool, false, ◌||◌}
use mathlib.Core.Logic.{inl, inr}
use mathlib.Core.List.{[], ◌∷◌, ◌++◌}
use mathlib.Core.Option.{Option, none, some}
use native.Mathlib.Omega.{arith}

abbrev has_bracket : Bytes → Bool
has_bracket s = contains b'[' s || contains b']' s

-- Behind the `]`: the one colon that is left, then the port.
behind_bracket : Bytes → Bytes → Bytes → Option (Bytes × Bytes)
behind_bracket inner host [] = none
behind_bracket inner host (c ∷ port) =
    if c == b':'
    then (if contains b':' port || contains b'[' inner || contains b']' port
        then none
        else some (host, port))
    else none

bracketed : Bytes → Option (Bytes × Bytes) → Option (Bytes × Bytes)
unfolding behind_bracket
bracketed inner none = none
bracketed inner (some (host, rest)) = behind_bracket inner host rest

plain : Bytes → Option (Bytes × Bytes) → Option (Bytes × Bytes)
plain s none = none
plain s (some (host, port)) =
    if contains b':' port || has_bracket s then none else some (host, port)

unfoldable pub split_host_port : Bytes → Option (Bytes × Bytes)
unfolding bracketed plain
split_host_port [] = none
split_host_port (c ∷ s) =
    if c == b'[' then bracketed s (cut_first b']' s) else plain (c ∷ s) (cut_first b':' (c ∷ s))

unfoldable pub join_host_port : Bytes → Bytes → Bytes
join_host_port host port =
    if contains b':' host then b'[' ∷ (host ++ b']' ∷ b':' ∷ port) else host ++ b':' ∷ port

-- Neither part holds a bracket, and the port holds no colon.
pub record IsClean (host port : Bytes) : Type 0 where
  pub host_open : contains b'[' host ≡ false
  pub host_close : contains b']' host ≡ false
  pub port_open : contains b'[' port ≡ false
  pub port_close : contains b']' port ≡ false
  pub port_colon : contains b':' port ≡ false

split_plain :
    (host port : Bytes)
    → contains b':' host ≡ false
    → IsClean host port
    → split_host_port (host ++ b':' ∷ port) ≡ some (host, port)
unfolding split_host_port
split_plain [] port h k = ground arith
split_plain (c ∷ host) port h k = ground (
  arith,
  cut_first-append b':' (c ∷ host) port h,
  contains-append b'[' (c ∷ host) (b':' ∷ port),
  contains-append b']' (c ∷ host) (b':' ∷ port),
)

split_bracketed :
    (host port : Bytes)
    → IsClean host port
    → split_host_port (b'[' ∷ (host ++ b']' ∷ b':' ∷ port)) ≡ some (host, port)
unfolding split_host_port
split_bracketed host port k = ground (
  arith,
  cut_first-append b']' host (b':' ∷ port) k.host_close,
  contains-append b'[' host (b']' ∷ b':' ∷ port),
)

-- What was joined is split again.
pub split_host_port-join_host_port :
    (host port : Bytes)
    → IsClean host port
    → split_host_port (join_host_port host port) ≡ some (host, port)
unfolding join_host_port
split_host_port-join_host_port host port k = elim (Bool-cases (contains b':' host)) [
  | inl v6 ↦ rw v6 (split_bracketed host port k)
  | inr v4 ↦ rw v4 (split_plain host port v4 k)
]
