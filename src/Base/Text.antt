-- ===== src/Base/Text.antt =====
-- Go strings as their bytes, with the functions of package strings that the program calls.
use Prim.Native.Char.{code}
use Prim.Native.String.{String}
use Prim.Native.Nat.{ℕ, zero, suc}
use mathlib.Core.Path.{◌≡◌, refl}
use mathlib.Core.Bool.{Bool, true, false, ◌&&◌, ◌||◌}
use mathlib.Core.Option.{Option, none, some}
use mathlib.Core.List.{List, [], ◌∷◌, ◌++◌, reverse}
use native.Mathlib.Omega.{arith}
use cliproxy_new.Base.Tests.{if◌then◌else◌, ltb, leb}
use cliproxy_new.Base.Lists.{length}
use cliproxy_new.Base.Classes.{◌==◌, ==_refl, nat_eq}

abbrev pub GoString : Type 0
GoString = List ℕ

-- The bytes of an ASCII literal.
abbrev pub bytes : String → GoString
bytes String.[] = []
bytes (String.◌∷◌ c s) = code c ∷ bytes s

-- `s == ""`
abbrev pub is_empty : GoString → Bool
is_empty [] = true
is_empty (c ∷ s) = false

-- `strings.CutPrefix`: what follows the prefix, if it is there.
unfoldable pub cut_prefix : GoString → GoString → Option GoString
cut_prefix s [] = some s
cut_prefix [] (p ∷ prefix) = none
cut_prefix (c ∷ s) (p ∷ prefix) = if c == p then cut_prefix s prefix else none

unfoldable pub has_prefix : GoString → GoString → Bool
has_prefix s [] = true
has_prefix [] (p ∷ prefix) = false
has_prefix (c ∷ s) (p ∷ prefix) = (c == p) && has_prefix s prefix

-- `strings.Split` at a one-byte separator.
cons_head : ℕ → List GoString → List GoString
cons_head c [] = (c ∷ []) ∷ []
cons_head c (w ∷ ws) = (c ∷ w) ∷ ws

pub split : GoString → ℕ → List GoString
unfolding cons_head
split [] sep = [] ∷ []
split (c ∷ s) sep = if c == sep then [] ∷ split s sep else cons_head c (split s sep)

-- `strings.Contains` at one byte.
unfoldable pub has_byte : GoString → ℕ → Bool
has_byte [] b = false
has_byte (c ∷ s) b = (c == b) || has_byte s b

-- `utf8.ValidString`, byte by byte: how many bytes of a character are to come, and the range of the
-- next one; none behind a byte that no character has there.
lead_byte : ℕ → Option (ℕ × ℕ × ℕ)
lead_byte c =
    if ltb c 128
    then some (0, 0, 0)
    else if ltb c 194
    then none
    else if ltb c 224
    then some (1, 128, 191)
    else if c == 224
    then some (2, 160, 191)
    else if c == 237
    then some (2, 128, 159)
    else if ltb c 240
    then some (2, 128, 191)
    else if c == 240
    then some (3, 144, 191)
    else if ltb c 244
    then some (3, 128, 191)
    else if c == 244
    then some (3, 128, 143)
    else none

next_byte : ℕ × ℕ × ℕ → ℕ → Option (ℕ × ℕ × ℕ)
unfolding lead_byte
next_byte (zero, low, high) c = lead_byte c
next_byte (suc n, low, high) c = if leb low c && leb c high then some (n, 128, 191) else none

valid_from : Option (ℕ × ℕ × ℕ) → GoString → Bool
unfolding next_byte
valid_from none s = false
valid_from (some state) [] = state.0 == 0
valid_from (some state) (c ∷ s) = valid_from (next_byte state c) s

unfoldable pub is_utf8 : GoString → Bool
unfolding valid_from
is_utf8 s = valid_from (some (0, 0, 0)) s

-- A text without the separator is one piece, up to the separator.
pub split-append :
    (s r : GoString) (sep : ℕ) → has_byte s sep ≡ false → split (s ++ sep ∷ r) sep ≡ s ∷ split r sep
unfolding split has_byte
split-append [] r sep h = ground arith
split-append (c ∷ s) r sep h = ground (arith, split-append s r sep)

-- A text without the separator is one piece.
pub split_whole : (s : GoString) (sep : ℕ) → has_byte s sep ≡ false → split s sep ≡ s ∷ []
unfolding split has_byte
split_whole [] sep h = refl
split_whole (c ∷ s) sep h = ground (arith, split_whole s sep)

pub cut_prefix-append : (p s : GoString) → cut_prefix (p ++ s) p ≡ some s
unfolding cut_prefix
cut_prefix-append [] [] = refl
cut_prefix-append [] (c ∷ s) = refl
cut_prefix-append (c ∷ p) s = rw (==_refl c) (cut_prefix-append p s)

-- The first bytes of a space in UTF-8 dropped: `unicode.IsSpace` at the head of the text.
cut_any : List GoString → GoString → Option GoString
unfolding cut_prefix
cut_any [] s = none
cut_any (w ∷ ws) s = elim (cut_prefix s w) [ some r ↦ some r | none ↦ cut_any ws s ]

-- White space of `unicode.IsSpace` in UTF-8: the ASCII ones, U+0085, U+00A0, U+1680, U+2000 to
-- U+200A, U+2028, U+2029, U+202F, U+205F and U+3000.
pub spaces : List GoString
spaces =
    (9 ∷ [])
    ∷ (10 ∷ [])
    ∷ (11 ∷ [])
    ∷ (12 ∷ [])
    ∷ (13 ∷ [])
    ∷ (32 ∷ [])
    ∷ (0xC2 ∷ 0x85 ∷ [])
    ∷ (0xC2 ∷ 0xA0 ∷ [])
    ∷ (0xE1 ∷ 0x9A ∷ 0x80 ∷ [])
    ∷ (0xE2 ∷ 0x80 ∷ 0x80 ∷ [])
    ∷ (0xE2 ∷ 0x80 ∷ 0x81 ∷ [])
    ∷ (0xE2 ∷ 0x80 ∷ 0x82 ∷ [])
    ∷ (0xE2 ∷ 0x80 ∷ 0x83 ∷ [])
    ∷ (0xE2 ∷ 0x80 ∷ 0x84 ∷ [])
    ∷ (0xE2 ∷ 0x80 ∷ 0x85 ∷ [])
    ∷ (0xE2 ∷ 0x80 ∷ 0x86 ∷ [])
    ∷ (0xE2 ∷ 0x80 ∷ 0x87 ∷ [])
    ∷ (0xE2 ∷ 0x80 ∷ 0x88 ∷ [])
    ∷ (0xE2 ∷ 0x80 ∷ 0x89 ∷ [])
    ∷ (0xE2 ∷ 0x80 ∷ 0x8A ∷ [])
    ∷ (0xE2 ∷ 0x80 ∷ 0xA8 ∷ [])
    ∷ (0xE2 ∷ 0x80 ∷ 0xA9 ∷ [])
    ∷ (0xE2 ∷ 0x80 ∷ 0xAF ∷ [])
    ∷ (0xE2 ∷ 0x81 ∷ 0x9F ∷ [])
    ∷ (0xE3 ∷ 0x80 ∷ 0x80 ∷ [])
    ∷ []

-- Words dropped from the head of the text while one fits. The fuel is the length of the text: a
-- word is not empty.
trim_head : ℕ → List GoString → GoString → GoString
unfolding cut_any
trim_head zero ws s = s
trim_head (suc fuel) ws s = elim (cut_any ws s) [ some r ↦ trim_head fuel ws r | none ↦ s ]

reverse_all : List GoString → List GoString
reverse_all [] = []
reverse_all (w ∷ ws) = reverse w ∷ reverse_all ws

-- `strings.TrimSpace`. UTF-8 is self-synchronising, so the last rune of a text is a space if and
-- only if the text ends in the bytes of that space.
unfoldable pub trim_space : GoString → GoString
unfolding trim_head spaces reverse_all
trim_space s =
    let front = trim_head (length s) spaces s in
    let back = reverse front in reverse (trim_head (length back) (reverse_all spaces) back)
