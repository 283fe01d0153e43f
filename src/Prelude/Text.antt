-- ===== src/Prelude/Text.antt =====
-- Python's `str` as its code points, with its comparison and the methods that the program calls.
use Prim.Native.Char.{code}
use Prim.Native.String.{String}
use Prim.Native.Nat.{ℕ}
use mathlib.Core.Path.{◌≡◌, refl}
use mathlib.Core.Logic.{◌↔◌}
use mathlib.Core.Bool.{Bool, true, false, ◌&&◌, ◌||◌}
use mathlib.Core.List.{List, [], ◌∷◌}
use native.Mathlib.Omega.{arith}
use conflict_graph.Prelude.Tests.{ltb, ◌==◌}
use conflict_graph.Prelude.Classes.{Eq}

abbrev pub Text : Type 0
Text = List ℕ

-- The code points of a literal.
abbrev pub codes : String → Text
codes String.[] = []
codes (String.◌∷◌ c s) = code c ∷ codes s

abbrev pub text_beq : Text → Text → Bool
text_beq [] [] = true
text_beq [] (d ∷ ds) = false
text_beq (c ∷ cs) [] = false
text_beq (c ∷ cs) (d ∷ ds) = c == d && text_beq cs ds

pub text_beq_iff : (s t : Text) → (text_beq s t ≡ true) ↔ (s ≡ t)
text_beq_iff [] [] = ground arith
text_beq_iff [] (d ∷ ds) = ground arith
text_beq_iff (c ∷ cs) [] = ground arith
text_beq_iff (c ∷ cs) (d ∷ ds) = ground (arith, text_beq_iff cs ds)

instance abbrev pub text_eq : Eq Text
text_eq = record { beq = text_beq; beq_iff = text_beq_iff }

-- s < t, by the first code point at which they differ
abbrev pub text_lt : Text → Text → Bool
text_lt s [] = false
text_lt [] (d ∷ ds) = true
text_lt (c ∷ cs) (d ∷ ds) = ltb c d || (c == d && text_lt cs ds)

pub text_lt-asym : (s t : Text) → text_lt s t ≡ true → text_lt t s ≡ false
text_lt-asym [] [] h = cc
text_lt-asym (c ∷ cs) [] h = cc
text_lt-asym [] (d ∷ ds) h = refl
text_lt-asym (c ∷ cs) (d ∷ ds) h = ground (arith, text_lt-asym cs ds)

-- `s <= t` is transitive.
pub text_le_trans : (s t u : Text) → text_lt t s ≡ false → text_lt u t ≡ false → text_lt u s ≡ false
text_le_trans [] t u h k = below u
  where
    below : (v : Text) → text_lt v [] ≡ false
    below [] = refl
    below (x ∷ xs) = refl
text_le_trans (c ∷ cs) [] u h k = cc
text_le_trans (c ∷ cs) (d ∷ ds) [] h k = cc
text_le_trans (c ∷ cs) (d ∷ ds) (e ∷ es) h k = ground (arith, text_le_trans cs ds es)

-- Of two different strings one is below the other.
pub text_lt-antisym : (s t : Text) → text_lt s t ≡ false → text_lt t s ≡ false → s ≡ t
text_lt-antisym [] [] h k = refl
text_lt-antisym [] (d ∷ ds) h k = cc
text_lt-antisym (c ∷ cs) [] h k = cc
text_lt-antisym (c ∷ cs) (d ∷ ds) h k = ground (arith, text_lt-antisym cs ds)

pub text_lt_irrefl : (s : Text) → text_lt s s ≡ false
text_lt_irrefl [] = refl
text_lt_irrefl (c ∷ cs) = ground (arith, text_lt_irrefl cs)

abbrev pub starts_with : Text → Text → Bool
starts_with [] s = true
starts_with (c ∷ cs) [] = false
starts_with (c ∷ cs) (d ∷ ds) = c == d && starts_with cs ds

abbrev pub ends_with : Text → Text → Bool
ends_with suffix [] = text_beq suffix []
ends_with suffix (c ∷ cs) = text_beq suffix (c ∷ cs) || ends_with suffix cs
