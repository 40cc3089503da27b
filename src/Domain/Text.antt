-- ===== src/Domain/Text.antt =====
-- Texts as the domain checks them (`BoundedText`, `RuleText`, `ControlCode`): a text is its Unicode
-- scalar values, `trim` strips what has the property White_Space, and `len` counts UTF-8 bytes.
use road_sim.Prelude.{ℕ, ◌+◌, Bool, ◌&&◌, ◌||◌, List, [], ◌∷◌, ltb, leb, ◌==◌, if◌then◌else◌, all}

abbrev pub Text : Type 0
Text = List ℕ

abbrev pub is_whitespace : ℕ → Bool
is_whitespace c =
    (leb 0x9 c && leb c 0xd)
    || (c == 0x20)
    || (c == 0x85)
    || (c == 0xa0)
    || (c == 0x1680)
    || (leb 0x2000 c && leb c 0x200a)
    || (c == 0x2028)
    || (c == 0x2029)
    || (c == 0x202f)
    || (c == 0x205f)
    || (c == 0x3000)

abbrev pub utf8_length : ℕ → ℕ
utf8_length c = if ltb c 0x80 then 1 else if ltb c 0x800 then 2 else if ltb c 0x10000 then 3 else 4

-- `value.len()`
unfoldable pub byte_length : Text → ℕ
byte_length [] = 0
byte_length (c ∷ cs) = utf8_length c + byte_length cs

-- `value.trim().is_empty()`
unfoldable pub is_blank : Text → Bool
is_blank text = all is_whitespace text
