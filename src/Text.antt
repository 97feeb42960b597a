-- ===== src/Text.antt =====
-- Texts as their bytes, as C holds them, and numbers in decimal (`int2string` of
-- 线程池连接池/TableOPerator.h).
pub mod Decimal
use Prim.Native.Char.{code}
use Prim.Native.String
use Prim.Native.String.{String}
use cpp_project.Base.{ℕ, ◌+◌, ◌/◌, ◌%◌, List, [], ◌∷◌, ◌++◌, ltb, if◌then◌else◌, ◌≡◌, refl}

abbrev pub Bytes : Type 0
Bytes = List ℕ

abbrev pub codes : String → Bytes
codes String.[] = []
codes (String.◌∷◌ c s) = code c ∷ codes s

-- A character in UTF-8, up to code 2^16 - 1.
abbrev pub utf8_char : ℕ → Bytes
utf8_char c =
    if ltb c 128
    then c ∷ []
    else if ltb c 2048
    then (192 + (c / 64)) ∷ (128 + (c % 64)) ∷ []
    else (224 + (c / 4096)) ∷ (128 + ((c / 64) % 64)) ∷ (128 + (c % 64)) ∷ []

-- A text that is not ASCII, as the compiler encodes it.
abbrev pub utf8 : Bytes → Bytes
utf8 [] = []
utf8 (c ∷ cs) = utf8_char c ++ utf8 cs
