-- ===== src/Go/Json.antt =====
-- Go's encoding/json: Unmarshal into a map[string]json.RawMessage, of which the sources read the keys.
-- A \u escape gives one code unit, also where two of them stand for one character.
mod Remainders
mod Shortening
mod Fuel
use Prim.Native.Char.{code}
use opensearch_dataprepper_k.Common.{
  ℕ, zero, suc, ◌+◌, ◌-◌, ◌*◌, String, ◌≡◌, refl, Bool, true, false, ◌&&◌, ◌||◌, Option, none, some,
  List, [], ◌∷◌, length, ltb, leb, nat_eq, if◌then◌else◌,
}

infixl 10 ◌>>=◌
abbrev ◌>>=◌ {ℓ κ} : {A : Type ℓ} {B : Type κ} → Option A → (A → Option B) → Option B
none >>= k = none
some a >>= k = k a

pub codes : String → List ℕ
codes String.[] = []
codes (String.◌∷◌ c s) = code c ∷ codes s

pub skip_space : List ℕ → List ℕ
skip_space [] = []
skip_space (c ∷ s) =
    let rest = skip_space s in
    if nat_eq c 32 || nat_eq c 9 || nat_eq c 10 || nat_eq c 13 then rest else c ∷ s

pub expect : ℕ → List ℕ → Option (List ℕ)
expect c [] = none
expect c (d ∷ s) = if nat_eq c d then some s else none

expect_all : List ℕ → List ℕ → Option (List ℕ)
unfolding expect
expect_all [] s = some s
expect_all (c ∷ cs) s = elim (expect c s) [ none ↦ none | some rest ↦ expect_all cs rest ]

is_digit : ℕ → Bool
is_digit c = leb 48 c && leb c 57

hex_value : ℕ → Option ℕ
unfolding is_digit
hex_value c =
    if is_digit c
    then some (c - 48)
    else if leb 97 c && leb c 102
    then some (c - 87)
    else if leb 65 c && leb c 70
    then some (c - 55)
    else none

-- Inside a string: plain text, behind a backslash, or with hexadecimal digits to come.
pub data Mode : Type 0 where
  plain escaped : Mode
  hex : ℕ → ℕ → Mode

escape : ℕ → Option (Mode × List ℕ)
escape c =
    if nat_eq c 34 || nat_eq c 92 || nat_eq c 47
    then some (plain, c ∷ [])
    else if nat_eq c 98
    then some (plain, 8 ∷ [])
    else if nat_eq c 102
    then some (plain, 12 ∷ [])
    else if nat_eq c 110
    then some (plain, 10 ∷ [])
    else if nat_eq c 114
    then some (plain, 13 ∷ [])
    else if nat_eq c 116
    then some (plain, 9 ∷ [])
    else if nat_eq c 117
    then some (hex 3 0, [])
    else none

step : Mode → ℕ → Option (Mode × List ℕ)
unfolding escape hex_value
step plain c =
    if nat_eq c 92 then some (escaped, []) else if ltb c 32 then none else some (plain, c ∷ [])
step escaped c = escape c
step (hex zero n) c = do d ← hex_value c; some (plain, (n * 16 + d) ∷ [])
step (hex (suc k) n) c = do d ← hex_value c; some (hex k (n * 16 + d), [])

is_closing : Mode → ℕ → Bool
is_closing plain c = nat_eq c 34
is_closing _ c = false

put : List ℕ → List ℕ × List ℕ → List ℕ × List ℕ
put [] found = found
put (c ∷ cs) (out, rest) = (c ∷ out, rest)

-- The text of a string behind its opening quote, and what follows the closing one.
pub string_body : Mode → List ℕ → Option (List ℕ × List ℕ)
unfolding step is_closing put
string_body m [] = none
string_body m (c ∷ s) = elim (is_closing m c) [
  | true ↦ some ([], s)
  | false ↦ elim (step m c) [
    | none ↦ none
    | some (m', out) ↦ elim (string_body m' s) [ none ↦ none | some found ↦ some (put out found) ]
  ]
]

digits : List ℕ → List ℕ
unfolding is_digit
digits [] = []
digits (c ∷ s) = let rest = digits s in if is_digit c then rest else c ∷ s

some_digits : List ℕ → Option (List ℕ)
unfolding digits
some_digits [] = none
some_digits (c ∷ s) = if is_digit c then some (digits s) else none

-- An integer part has no leading zero.
integer_part : List ℕ → Option (List ℕ)
unfolding some_digits
integer_part [] = none
integer_part (c ∷ s) = if nat_eq c 48 then some s else some_digits (c ∷ s)

fraction : List ℕ → Option (List ℕ)
unfolding expect some_digits
fraction s = elim (expect 46 s) [ none ↦ some s | some rest ↦ some_digits rest ]

sign : List ℕ → List ℕ
sign [] = []
sign (c ∷ s) = if nat_eq c 43 || nat_eq c 45 then s else c ∷ s

exponent : List ℕ → Option (List ℕ)
unfolding sign some_digits
exponent [] = some []
exponent (c ∷ s) = if nat_eq c 101 || nat_eq c 69 then some_digits (sign s) else some (c ∷ s)

number : List ℕ → Option (List ℕ)
unfolding expect integer_part fraction exponent
number s = do
  let unsigned = elim (expect 45 s) as (λ _. List ℕ) [ none ↦ s | some rest ↦ rest ]
  after_int ← integer_part unsigned
  after_fraction ← fraction after_int
  exponent after_fraction

pub scalar : List ℕ → Option (List ℕ)
unfolding codes expect_all number
scalar s = elim (expect_all (codes "true") s) [
  | some rest ↦ some rest
  | none ↦ elim (expect_all (codes "false") s) [
    | some rest ↦ some rest
    | none ↦ elim (expect_all (codes "null") s) [ some rest ↦ some rest | none ↦ number s ]
  ]
]

-- On fuel, of which each call takes one.
-- The text begins with no space; `members` also gives the keys.
mutual
  unfolding expect string_body skip_space scalar

  pub json_value : ℕ → List ℕ → Option (List ℕ)
  json_value zero s = none
  json_value (suc f) s = elim (expect 34 s) [
    | some t ↦ do found ← string_body plain t; some found.1
    | none ↦ elim (expect 123 s) [
      | some t ↦ elim (expect 125 (skip_space t)) [
        | some rest ↦ some rest
        | none ↦ do found ← members f (skip_space t); some found.1
      ]
      | none ↦ elim (expect 91 s) [
        | some t ↦ elim (expect 93 (skip_space t)) [
          | some rest ↦ some rest
          | none ↦ elements f (skip_space t)
        ]
        | none ↦ scalar s
      ]
    ]
  ]

  pub elements : ℕ → List ℕ → Option (List ℕ)
  elements zero s = none
  elements (suc f) s = do
    rest ← json_value f s
    elim (expect 44 (skip_space rest)) [
      | some more ↦ elements f (skip_space more)
      | none ↦ expect 93 (skip_space rest)
    ]

  pub members : ℕ → List ℕ → Option (List (List ℕ) × List ℕ)
  members zero s = none
  members (suc f) s = do
    t ← expect 34 s
    key ← string_body plain t
    after_colon ← expect 58 (skip_space key.1)
    rest ← json_value f (skip_space after_colon)
    elim (expect 44 (skip_space rest)) [
      | some more ↦ do found ← members f (skip_space more); some (key.0 ∷ found.0, found.1)
      | none ↦ do end ← expect 125 (skip_space rest); some (key.0 ∷ [], end)
    ]

at_end : List (List ℕ) → List ℕ → Option (List (List ℕ))
unfolding skip_space
at_end keys rest = elim (skip_space rest) [ [] ↦ some keys | _ ∷ _ ↦ none ]

object_keys : List ℕ → Option (List (List ℕ))
unfolding expect skip_space members at_end expect_all codes
object_keys s = elim (expect 123 s) [
  | some t ↦ elim (expect 125 (skip_space t)) [
    | some rest ↦ at_end [] rest
    | none ↦ do found ← members (2 + 2 * length t) (skip_space t); at_end found.0 found.1
  ]
  | none ↦ do rest ← expect_all (codes "null") s; at_end [] rest
]

-- The keys of the map that json.Unmarshal makes of a text; none if it returns an error. The text
-- `null` gives a nil map.
unfoldable pub unmarshal_keys : String → Option (List (List ℕ))
unfolding object_keys
unmarshal_keys raw = object_keys (skip_space (codes raw))

same_codes : List ℕ → List ℕ → Bool
same_codes [] [] = true
same_codes (a ∷ s) (b ∷ t) = nat_eq a b && same_codes s t
same_codes _ _ = false

-- _, ok := definition[key]
unfoldable pub has_key : String → List (List ℕ) → Bool
unfolding same_codes codes
has_key key [] = false
has_key key (k ∷ ks) = same_codes (codes key) k || has_key key ks

reads_keys :
    unmarshal_keys "{\"source\": {\"http\":{\"port\":-2.5e3}}, \"\\u0073ink\":[null,\"}\", true]} "
    ≡ some (codes "source" ∷ codes "sink" ∷ [])
unfolding unmarshal_keys
reads_keys = refl

refuses :
    (unmarshal_keys "[]" ≡ none)
    × (unmarshal_keys "{\"a\":01}" ≡ none)
    × (unmarshal_keys "{\"a\":1,}" ≡ none)
    × (unmarshal_keys "null" ≡ some [])
unfolding unmarshal_keys
refuses = (refl, refl, refl, refl)
