-- ===== src/Prelude/Paths.antt =====
-- Go's `path/filepath` where the separator is a slash.
use mathlib.Core.Bool.{Bool, false, ◌&&◌, ◌||◌}
use mathlib.Core.Option.{Option, none, some}
use mathlib.Core.List.{[], ◌∷◌}
use Prim.Native.Nat.{ℕ}
use cortex_go.Prelude.Tests.{◌==◌, if◌then◌else◌}
use cortex_go.Prelude.Strings.{Str, bytes}
use cortex_go.Prelude.Utf8.{is_empty}

-- strings.TrimRight(s, "/")
unfoldable pub trim_slashes : Str → Str
trim_slashes [] = []
trim_slashes (c ∷ s) =
    let rest = trim_slashes s in if is_empty rest && c == b'/' then [] else c ∷ rest

-- From the last such byte on.
unfoldable pub from_last : ℕ → Str → Option Str
from_last c [] = none
from_last c (d ∷ s) = elim (from_last c s) [
  | some rest ↦ some rest
  | none ↦ if c == d then some (d ∷ s) else none
]

unfoldable pub has_slash : Str → Bool
has_slash [] = false
has_slash (c ∷ s) = let rest = has_slash s in c == b'/' || rest

-- filepath.Ext: from the last dot on, where no slash follows it
unfoldable pub extension : Str → Str
extension path = elim (from_last b'.' path) [
  | none ↦ []
  | some ext ↦ if has_slash ext then [] else ext
]

-- The part behind the last slash, of a path that does not end with one.
unfoldable pub last_part : Str → Str
last_part path = elim (from_last b'/' path) [
  | none ↦ path
  | some [] ↦ path
  | some (c ∷ rest) ↦ rest
]

-- filepath.Base
unfoldable pub base : Str → Str
base path =
    if is_empty path
    then bytes "."
    else if is_empty (trim_slashes path)
    then bytes "/"
    else last_part (trim_slashes path)
