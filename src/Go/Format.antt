-- ===== src/Go/Format.antt =====
-- Go's fmt and strconv: %d of an integer and %q of a text.
use Prim.Native.Char.{Char, code}
use Prim.Native.String.{[], ◌∷◌}
use opensearch_dataprepper_k.Common.{
  ℕ, zero, suc, ◌+◌, ◌/◌, ◌%◌, String, ◌≡◌, refl, ◌||◌, nat_eq, ltb, if◌then◌else◌, ◌<>◌, ℤ, pos,
  negsuc,
}

abbrev pub hex_digit : ℕ → String
hex_digit n =
    if ltb n 10
    then (if ltb n 5
        then (if nat_eq n 0
            then "0"
            else if nat_eq n 1
            then "1"
            else if nat_eq n 2
            then "2"
            else if nat_eq n 3
            then "3"
            else "4")
        else (if nat_eq n 5
            then "5"
            else if nat_eq n 6
            then "6"
            else if nat_eq n 7
            then "7"
            else if nat_eq n 8
            then "8"
            else "9"))
    else (if nat_eq n 10
        then "a"
        else if nat_eq n 11
        then "b"
        else if nat_eq n 12
        then "c"
        else if nat_eq n 13
        then "d"
        else if nat_eq n 14
        then "e"
        else "f")

print_digits : ℕ → ℕ → String
print_digits zero n = hex_digit (n % 10)
print_digits (suc fuel) n =
    let more = print_digits fuel (n / 10) <> hex_digit (n % 10) in
    if ltb n 10 then hex_digit n else more

-- A 64-bit integer has at most 19 digits.
unfoldable pub print_int : ℤ → String
unfolding print_digits
print_int (pos n) = print_digits 20 n
print_int (negsuc n) = "-" <> print_digits 20 (n + 1)

abbrev quote_char : Char → String
quote_char c =
    let n = code c in
    if nat_eq n 34
    then "\\\""
    else if nat_eq n 92
    then "\\\\"
    else if nat_eq n 7
    then "\\a"
    else if nat_eq n 8
    then "\\b"
    else if nat_eq n 12
    then "\\f"
    else if nat_eq n 10
    then "\\n"
    else if nat_eq n 13
    then "\\r"
    else if nat_eq n 9
    then "\\t"
    else if nat_eq n 11
    then "\\v"
    else if ltb n 32 || nat_eq n 127
    then "\\x" <> hex_digit (n / 16) <> hex_digit (n % 16)
    else c ∷ []

quote_chars : String → String
quote_chars [] = []
quote_chars (c ∷ s) = quote_char c <> quote_chars s

-- %q, where a character beyond ASCII is taken as printable.
unfoldable pub quote : String → String
unfolding quote_chars
quote s = "\"" <> quote_chars s <> "\""

prints : print_int (pos 2048) ≡ "2048"
unfolding print_int
prints = refl

quotes : quote "a\"b" ≡ "\"a\\\"b\""
unfolding quote
quotes = refl
