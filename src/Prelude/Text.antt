-- ===== src/Prelude/Text.antt =====
-- `str.endswith`, over the bytes of native texts.
use Prim.Native.Nat.{ℕ, ◌+◌, ◌-◌, ◌≤◌}
use Prim.Native.String.{String, ◌++◌, len, slice}
use mathlib.Core.Path.{◌≡◌}
use mathlib.Core.Bool.{Bool, true, ◌&&◌}
use native.Mathlib.Omega.{arith}
use text.Mathlib.Text.{◌==◌}
use text.Mathlib.TextPositions.{eq_refl, len-append, slice-append_right}
use incident_platform.Prelude.Tests.{leb}

le-leb : (a b : ℕ) → a ≤ b → leb a b ≡ true
le-leb a b h = ground arith

unfoldable pub ends_with : String → String → Bool
ends_with s t = leb (len t) (len s) && slice s (len s - len t) (len s) == t

-- What is put behind a text ends it.
pub ends_with-append : (s t : String) → ends_with (s ++ t) t ≡ true
unfolding ends_with
ends_with-append s t = rw len-append (
    let e : len s + len t - len t ≡ len s = omega arith in
    rw (e, le-leb (len t) (len s + len t) (omega arith), slice-append_right) (eq_refl t))
