-- ===== src/Prelude/Text.antt =====
-- Text as the bytes that Go compares, measures and searches.
use Prim.Native.Char.{code}
use Prim.Native.Nat.{ℕ, ◌+◌}
use Prim.Native.String.{String}
use mathlib.Core.Path.{◌≡◌, refl}
use mathlib.Core.Logic.{◌↔◌}
use mathlib.Core.Bool.{Bool, true, false, ◌&&◌}
use mathlib.Core.List.{List, [], ◌∷◌, map}
use native.Mathlib.Omega.{arith}
use proxy_manager.Prelude.Tests.{HasEq, nat_beq, leb, if◌then◌else◌}

abbrev pub Bytes : Type 0
Bytes = List ℕ

-- The code points of a literal: its bytes, as all literals here are ASCII.
abbrev pub codes : String → Bytes
codes String.[] = []
codes (String.◌∷◌ c s) = code c ∷ codes s

abbrev pub bytes_beq : Bytes → Bytes → Bool
bytes_beq [] [] = true
bytes_beq [] (d ∷ t) = false
bytes_beq (c ∷ s) [] = false
bytes_beq (c ∷ s) (d ∷ t) = nat_beq c d && bytes_beq s t

pub bytes_beq_iff : (s t : Bytes) → (bytes_beq s t ≡ true) ↔ (s ≡ t)
bytes_beq_iff [] [] = ((λ _. refl), (λ _. refl))
bytes_beq_iff [] (d ∷ t) = ((λ h. cc), (λ h. cc))
bytes_beq_iff (c ∷ s) [] = ((λ h. cc), (λ h. cc))
bytes_beq_iff (c ∷ s) (d ∷ t) =
    (ground (arith, bytes_beq_iff s t), ground (arith, bytes_beq_iff s t))

instance abbrev pub bytes_eq : HasEq Bytes
bytes_eq = record { eq_test = bytes_beq; eq_test_iff = bytes_beq_iff }

-- strings.HasPrefix
abbrev pub has_prefix : Bytes → Bytes → Bool
has_prefix s [] = true
has_prefix [] (d ∷ t) = false
has_prefix (c ∷ s) (d ∷ t) = nat_beq c d && has_prefix s t

-- strings.ToLower, on ASCII
abbrev pub lower_byte : ℕ → ℕ
lower_byte c = if leb b'A' c && leb c b'Z' then c + 32 else c

abbrev pub to_lower : Bytes → Bytes
to_lower s = map lower_byte s

-- strings.EqualFold, on ASCII
abbrev pub equal_fold : Bytes → Bytes → Bool
equal_fold s t = bytes_beq (to_lower s) (to_lower t)
