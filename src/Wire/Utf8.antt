-- ===== src/Wire/Utf8.antt =====
-- `String::from_utf8` of Rust's standard library. A `String` is the list of its UTF-8 bytes.
use head_end_system_tpp.Prelude.{
  ℕ, zero, suc, ◌≡◌, refl, Bool, true, false, ◌&&◌, Option, none, some,
}
use head_end_system_tpp.Prelude.{List, [], ◌∷◌, ltb, leb, if◌then◌else◌}

-- How many continuation bytes are due, and the range of the next one.
abbrev State : Type 0
State = ℕ × ℕ × ℕ

abbrev start : State
start = (0, 0x80, 0xbf)

-- The first byte of a character (table 3-7 of the Unicode standard).
first : ℕ → Option State
first b =
    if ltb b 0x80
    then some start
    else if ltb b 0xc2
    then none
    else if ltb b 0xe0
    then some (1, 0x80, 0xbf)
    else if ltb b 0xe1
    then some (2, 0xa0, 0xbf)
    else if ltb b 0xed
    then some (2, 0x80, 0xbf)
    else if ltb b 0xee
    then some (2, 0x80, 0x9f)
    else if ltb b 0xf0
    then some (2, 0x80, 0xbf)
    else if ltb b 0xf1
    then some (3, 0x90, 0xbf)
    else if ltb b 0xf4
    then some (3, 0x80, 0xbf)
    else if ltb b 0xf5
    then some (3, 0x80, 0x8f)
    else none

next : State → ℕ → Option State
next (zero, lo, hi) b = first b
next (suc n, lo, hi) b = if leb lo b && leb b hi then some (n, 0x80, 0xbf) else none

accepts : Option State → List ℕ → Bool
accepts none bs = false
accepts (some (zero, lo, hi)) [] = true
accepts (some (suc n, lo, hi)) [] = false
accepts (some s) (b ∷ bs) = accepts (next s b) bs

unfoldable pub is_utf8 : List ℕ → Bool
unfolding first next accepts
is_utf8 = accepts (some start)

-- "ñ" and the euro sign are accepted; a lone continuation byte and a surrogate are not.
is_utf8_samples :
    (is_utf8 (0xc3 ∷ 0xb1 ∷ 0xe2 ∷ 0x82 ∷ 0xac ∷ []) ≡ true)
    × (is_utf8 (0x80 ∷ []) ≡ false)
    × (is_utf8 (0xed ∷ 0xa0 ∷ 0x80 ∷ []) ≡ false)
unfolding is_utf8
is_utf8_samples = (refl, refl, refl)
