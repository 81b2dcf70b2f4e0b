-- ===== src/Base/Uri.antt =====
-- JavaScript's `encodeURIComponent`, over the scalar values of a text.
use Prim.Native.Nat.{ℕ, ◌+◌, ◌/◌, ◌%◌}
use Prim.Native.Char.{Char, code}
use Prim.Native.String.{String}
use mathlib.Core.Bool.{Bool, ◌||◌, ◌&&◌}
use mathlib.Core.List.{List, [], ◌∷◌}
use mqtt_chat.Base.Tests.{ltb, leb, ◌==◌, nat_eq, if◌then◌else◌}

-- A digit of a hexadecimal number, in upper case.
abbrev hex_digit : ℕ → Char
hex_digit n =
    if n == 0
    then "0"
    else if n == 1
    then "1"
    else if n == 2
    then "2"
    else if n == 3
    then "3"
    else if n == 4
    then "4"
    else if n == 5
    then "5"
    else if n == 6
    then "6"
    else if n == 7
    then "7"
    else if n == 8
    then "8"
    else if n == 9
    then "9"
    else if n == 10
    then "A"
    else if n == 11
    then "B"
    else if n == 12
    then "C"
    else if n == 13
    then "D"
    else if n == 14
    then "E"
    else "F"

utf8 : ℕ → List ℕ
utf8 c =
    if ltb c 0x80
    then c ∷ []
    else if ltb c 0x800
    then (0xC0 + c / 0x40) ∷ (0x80 + c % 0x40) ∷ []
    else if ltb c 0x10000
    then (0xE0 + c / 0x1000) ∷ (0x80 + c / 0x40 % 0x40) ∷ (0x80 + c % 0x40) ∷ []
    else (0xF0 + c / 0x40000)
      ∷ (0x80 + c / 0x1000 % 0x40)
      ∷ (0x80 + c / 0x40 % 0x40)
      ∷ (0x80 + c % 0x40)
      ∷ []

escape_bytes : List ℕ → String → String
escape_bytes [] rest = rest
escape_bytes (b ∷ bs) rest =
    String.◌∷◌ "%"
      (String.◌∷◌ (hex_digit (b / 16)) (String.◌∷◌ (hex_digit (b % 16)) (escape_bytes bs rest)))

-- The letters, the digits and - _ . ! ~ * ' ( ) stay.
abbrev is_unreserved : ℕ → Bool
is_unreserved c =
    leb b'a' c && leb c b'z'
    || (leb b'A' c && leb c b'Z'
        || (leb b'0' c && leb c b'9'
            || (c == b'-'
                || (c == b'_'
                    || (c == b'.'
                        || (c == b'!'
                            || (c == b'~'
                                || (c == b'*' || (c == 0x27 || (c == b'(' || c == b')'))))))))))

unfoldable pub encode_uri_component : String → String
unfolding utf8 escape_bytes
encode_uri_component String.[] = ""
encode_uri_component (String.◌∷◌ c s) =
    let rest = encode_uri_component s in
    if is_unreserved (code c) then String.◌∷◌ c rest else escape_bytes (utf8 (code c)) rest
