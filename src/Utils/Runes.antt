-- ===== src/Utils/Runes.antt =====
-- The runes of a text, as Go's `range` over a string decodes them: UTF-8, where a byte that begins
-- no valid sequence is read alone as U+FFFD.
use citadel_dnxproxy.Prelude.{
  ℕ, zero, suc, ◌+◌, ◌-◌, ◌*◌, Bool, ◌&&◌, List, [], ◌∷◌, leb, ltb, if◌then◌else◌,
}
use citadel_dnxproxy.Text.{Text}

abbrev pub replacement_char : ℕ
replacement_char = 0xfffd

-- A continuation byte, 10xxxxxx.
abbrev is_tail : ℕ → Bool
is_tail b = leb 0x80 b && leb b 0xbf

-- The rune at the head of a text whose first byte is 0x80 or more, and the width of its encoding.
-- The second byte's range keeps out overlong forms, surrogates and runes above U+10FFFF.
decode_two : ℕ → ℕ → ℕ × ℕ
decode_two a b =
    if leb 0xc2 a && leb a 0xdf && is_tail b
    then ((a - 0xc0) * 64 + (b - 0x80), 2)
    else (replacement_char, 1)

second_of_three : ℕ → ℕ → Bool
second_of_three a b =
    leb (if leb a 0xe0 then 0xa0 else 0x80) b
    && leb b (if leb 0xed a && leb a 0xed then 0x9f else 0xbf)

decode_three : ℕ → ℕ → ℕ → ℕ × ℕ
decode_three a b c =
    if leb 0xe0 a && leb a 0xef && second_of_three a b && is_tail c
    then ((a - 0xe0) * 4096 + (b - 0x80) * 64 + (c - 0x80), 3)
    else decode_two a b

second_of_four : ℕ → ℕ → Bool
second_of_four a b =
    leb (if leb a 0xf0 then 0x90 else 0x80) b && leb b (if leb 0xf4 a then 0x8f else 0xbf)

decode_four : ℕ → ℕ → ℕ → ℕ → ℕ × ℕ
decode_four a b c d =
    if leb 0xf0 a && leb a 0xf4 && second_of_four a b && is_tail c && is_tail d
    then ((a - 0xf0) * 262144 + (b - 0x80) * 4096 + (c - 0x80) * 64 + (d - 0x80), 4)
    else decode_three a b c

decode_head : ℕ → Text → ℕ × ℕ
decode_head a (b ∷ c ∷ d ∷ s) = decode_four a b c d
decode_head a (b ∷ c ∷ []) = decode_three a b c
decode_head a (b ∷ []) = decode_two a b
decode_head a [] = (replacement_char, 1)

-- `skip` bytes of the rune before are still to be passed over.
runes_from : ℕ → Text → List ℕ
runes_from skip [] = []
runes_from (suc skip) (a ∷ s) = runes_from skip s
runes_from zero (a ∷ s) =
    let (rune, width) = (if ltb a 0x80 then (a, 1) else decode_head a s) in
    rune ∷ runes_from (width - 1) s

unfoldable pub string_to_rune_slice : Text → List ℕ
unfolding runes_from decode_head decode_four decode_three decode_two second_of_three second_of_four
string_to_rune_slice = runes_from 0
