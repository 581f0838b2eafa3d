-- ===== src/WorkflowRuntime/Compiler/Prefix.antt =====
-- `str.removeprefix`.
use Prim.Native.Char.{code}
use Prim.Native.String.{String, ◌++◌}
use mathlib.Core.Path.{◌≡◌}
use mathlib.Core.Option.{Option, none, some}
use native.Mathlib.Omega.{arith}
use text.Mathlib.TextLemmas.{nil-append, cons-append}
use aegis_flow.Base.{eqb, if◌then◌else◌}

strip : String → String → Option String
strip String.[] s = some s
strip (String.◌∷◌ c p) String.[] = none
strip (String.◌∷◌ c p) (String.◌∷◌ d s) = if eqb (code c) (code d) then strip p s else none

unfoldable pub remove_prefix : String → String → String
unfolding strip
remove_prefix p s = elim (strip p s) [ none ↦ s | some rest ↦ rest ]

strip-append : (p s : String) → strip p (p ++ s) ≡ some s
unfolding strip
strip-append String.[] s = rw (nil-append s)
strip-append (String.◌∷◌ c p) s = rw (cons-append c p s) (ground (arith, strip-append p s))

-- The prefix of a text that begins with it is taken off.
pub remove_prefix-append : (p s : String) → remove_prefix p (p ++ s) ≡ s
unfolding remove_prefix
remove_prefix-append p s = rw (strip-append p s, remove_prefix)
