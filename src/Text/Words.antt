-- ===== src/Text/Words.antt =====
-- Package `strings`. A Go string is the text whose UTF-8 it is.
use Prim.Native.String.{◌++◌ as append_text, char_at}
use openriak_operator.Prelude.{
  ◌-◌, String, Char, code, Bool, true, false, ◌&&◌, ◌||◌, List, [], ◌∷◌, Option, none, some, leb,
  eqb, ◌==◌, if◌then◌else◌, any_of, ◌≡◌,
}

-- s + t
abbrev pub append : String → String → String
append s t = append_text s t

abbrev pub char_eq : Char → Char → Bool
char_eq c d = eqb (code c) (code d)

-- strings.HasPrefix(s, prefix)
unfoldable pub has_prefix : String → String → Bool
has_prefix s String.[] = true
has_prefix String.[] (String.◌∷◌ c p) = false
has_prefix (String.◌∷◌ d s) (String.◌∷◌ c p) = char_eq d c && has_prefix s p

-- strings.HasSuffix(s, suffix)
unfoldable pub has_suffix : String → String → Bool
has_suffix String.[] t = "" == t
has_suffix (String.◌∷◌ c s) t = String.◌∷◌ c s == t || has_suffix s t

-- strings.Contains(s, substr)
unfoldable pub contains : String → String → Bool
unfolding has_prefix
contains String.[] t = has_prefix "" t
contains (String.◌∷◌ c s) t = has_prefix (String.◌∷◌ c s) t || contains s t

abbrev push_front : Char → List String → List String
push_front c [] = String.◌∷◌ c "" ∷ []
push_front c (w ∷ ws) = String.◌∷◌ c w ∷ ws

-- strings.Split(s, sep) for a separator of one character: always at least one part.
unfoldable pub split_on : Char → String → List String
split_on sep String.[] = "" ∷ []
split_on sep (String.◌∷◌ c s) =
    let rest = split_on sep s in if char_eq c sep then "" ∷ rest else push_front c rest

-- unicode.IsSpace: the ASCII spaces, U+0085, U+00A0 and the category of space separators.
unfoldable pub is_space : Char → Bool
is_space ch =
    let c = code ch in
    leb 9 c && leb c 13
    || eqb c 32
    || eqb c 0x85
    || eqb c 0xa0
    || eqb c 0x1680
    || leb 0x2000 c && leb c 0x200a
    || eqb c 0x2028
    || eqb c 0x2029
    || eqb c 0x202f
    || eqb c 0x205f
    || eqb c 0x3000

-- `current` is the word that is open, if one is.
fields_from : Option String → String → List String
unfolding is_space
fields_from none String.[] = []
fields_from (some w) String.[] = w ∷ []
fields_from none (String.◌∷◌ c s) =
    let skipped = fields_from none s in
    let opened = fields_from (some (String.◌∷◌ c "")) s in if is_space c then skipped else opened
fields_from (some w) (String.◌∷◌ c s) =
    let closed = w ∷ fields_from none s in
    let longer = fields_from (some (append w (String.◌∷◌ c ""))) s in
    if is_space c then closed else longer

-- strings.Fields(s): the maximal runs of characters that are no spaces.
unfoldable pub fields : String → List String
unfolding fields_from
fields s = fields_from none s

-- strings.TrimLeftFunc(s, drop)
unfoldable pub trim_left : (Char → Bool) → String → String
trim_left drop String.[] = ""
trim_left drop (String.◌∷◌ c s) =
    let rest = trim_left drop s in if drop c then rest else String.◌∷◌ c s

-- strings.TrimRightFunc(s, drop)
trim_right : (Char → Bool) → String → String
trim_right drop String.[] = ""
trim_right drop (String.◌∷◌ c s) =
    let rest = trim_right drop s in if drop c && rest == "" then "" else String.◌∷◌ c rest

-- strings.TrimSpace(s)
unfoldable pub trim_space : String → String
unfolding trim_left trim_right is_space
trim_space s = trim_right is_space (trim_left is_space s)

-- strings.Trim(s, cutset) for a set of one character.
unfoldable pub trim_char : Char → String → String
unfolding trim_left trim_right
trim_char c s = trim_right (char_eq c) (trim_left (char_eq c) s)

-- strings.Join(parts, sep)
unfoldable pub join : List String → String → String
join [] sep = ""
join (w ∷ []) sep = w
join (w ∷ v ∷ ws) sep = append w (append sep (join (v ∷ ws) sep))

-- unicode.ToLower on the characters that it maps into ASCII: A to Z, U+0130 and U+212A. Others are
-- kept, so a comparison with an ASCII text has Go's answer.
lower_char : Char → Char
lower_char c =
    if leb b'A' (code c) && leb (code c) b'Z'
    then char_at "abcdefghijklmnopqrstuvwxyz" (code c - b'A')
    else if eqb (code c) 0x130
    then "i"
    else if eqb (code c) 0x212a
    then "k"
    else c

unfoldable pub to_lower : String → String
unfolding lower_char
to_lower String.[] = ""
to_lower (String.◌∷◌ c s) = String.◌∷◌ (lower_char c) (to_lower s)

-- s[i+1:] for i = strings.LastIndex(s, sep), or `none` where i < 0.
unfoldable pub after_last : Char → String → Option String
after_last sep String.[] = none
after_last sep (String.◌∷◌ c s) = elim (after_last sep s) [
  | some t ↦ some t
  | none ↦ if char_eq c sep then some s else none
]

-- A key of a map[string]bool, or an element of a slice.
unfoldable pub mem : String → List String → Bool
mem s ts = any_of (λ t. t == s) ts

-- No text stands twice.
abbrev pub NoRepeats : List String → Type 0
NoRepeats [] = Unit
NoRepeats (t ∷ ts) = (mem t ts ≡ false) × NoRepeats ts
