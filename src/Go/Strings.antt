-- ===== src/Go/Strings.antt =====
-- Go's package strings: TrimSpace, HasSuffix, TrimSuffix.
use Prim.Native.Char.{code}
use Prim.Native.String.{[], ◌∷◌}
use opensearch_dataprepper_k.Common.{
  ℕ, String, ◌≡◌, refl, Bool, ◌&&◌, ◌||◌, Option, none, some, ◌==◌, nat_eq, leb, if◌then◌else◌,
  is_some,
}

-- unicode.IsSpace
abbrev is_space : ℕ → Bool
is_space c =
    leb 9 c && leb c 13
    || nat_eq c 32
    || nat_eq c 0x85
    || nat_eq c 0xa0
    || nat_eq c 0x1680
    || leb 0x2000 c && leb c 0x200a
    || nat_eq c 0x2028
    || nat_eq c 0x2029
    || nat_eq c 0x202f
    || nat_eq c 0x205f
    || nat_eq c 0x3000

trim_left : String → String
trim_left [] = []
trim_left (c ∷ s) = let rest = trim_left s in if is_space (code c) then rest else c ∷ s

trim_right : String → String
trim_right [] = []
trim_right (c ∷ s) =
    let rest = trim_right s in if is_space (code c) && rest == "" then [] else c ∷ rest

unfoldable pub trim_space : String → String
unfolding trim_left trim_right
trim_space s = trim_right (trim_left s)

-- What stands before the suffix, if the text ends in it.
unfoldable pub cut_suffix : String → String → Option String
cut_suffix [] suffix = if suffix == "" then some [] else none
cut_suffix (c ∷ s) suffix =
    let rest = cut_suffix s suffix in
    if suffix == (c ∷ s) then some [] else elim rest [ none ↦ none | some r ↦ some (c ∷ r) ]

unfoldable pub has_suffix : String → String → Bool
unfolding cut_suffix
has_suffix s suffix = is_some (cut_suffix s suffix)

unfoldable pub trim_suffix : String → String → String
unfolding cut_suffix
trim_suffix s suffix = elim (cut_suffix s suffix) [ none ↦ s | some r ↦ r ]

trims : trim_space "\t a b \n" ≡ "a b"
unfolding trim_space
trims = refl

suffixes : trim_suffix "a-pipelines" "-pipelines" ≡ "a"
unfolding trim_suffix
suffixes = refl
