-- ===== src/Prelude/Text.antt =====
-- The functions of Go's packages strings, strconv and unicode that the program calls. A string is
-- the list of its runes.
use Prim.Native.Nat.{ℕ, zero, suc, ◌+◌, ◌/◌, ◌%◌, compare, Ordering}
use Prim.Native.Char.{Char, char, code}
use Prim.Native.String.{String, [], ◌∷◌}
use mathlib.Core.Path.{◌≡◌, refl, ap}
use mathlib.Core.Bool.{Bool, true, false, ◌&&◌, ◌||◌}
use mathlib.Core.List.{List}
use coeus.Prelude.Tests.{leb, ◌==◌, if◌then◌else◌}

-- s + t
abbrev pub concat : String → String → String
concat [] t = t
concat (c ∷ s) t = c ∷ concat s t

pub concat_assoc : (s t u : String) → concat (concat s t) u ≡ concat s (concat t u)
concat_assoc [] t u = refl
concat_assoc (c ∷ s) t u = ap (λ r. c ∷ r) (concat_assoc s t u)

-- string(rune(n)); what is no scalar value becomes U+FFFD.
abbrev above : (n : ℕ) → compare n 55296 ≡ Ordering.gt → Char
above n e =
    (elim (compare 57343 n) as (λ o. compare 57343 n ≡ o → Char) [
      | Ordering.lt ↦ λ p.
          (elim (compare n 1114112) as (λ o. compare n 1114112 ≡ o → Char) [
            | Ordering.lt ↦ λ q. char n (rw e (rw p (rw q tt)))
            | Ordering.eq ↦ λ q. char 0xFFFD tt
            | Ordering.gt ↦ λ q. char 0xFFFD tt
          ])
            refl
      | Ordering.eq ↦ λ p. char 0xFFFD tt
      | Ordering.gt ↦ λ p. char 0xFFFD tt
    ])
      refl

unfoldable pub rune : ℕ → Char
rune n =
    (elim (compare n 55296) as (λ o. compare n 55296 ≡ o → Char) [
      | Ordering.lt ↦ λ e. char n (rw e tt)
      | Ordering.eq ↦ λ e. char 0xFFFD tt
      | Ordering.gt ↦ above n
    ])
      refl

-- unicode.IsSpace
abbrev among : ℕ → List ℕ → Bool
among n List.[] = false
among n (List.◌∷◌ m ms) = n == m || among n ms

unfoldable pub is_space : Char → Bool
is_space c =
    let n = code c in
    (leb 9 n && leb n 13)
    || (n == 0x20
        || (n == 0x85
            || (n == 0xA0
                || (n == 0x1680
                    || ((leb 0x2000 n && leb n 0x200A)
                        || (n == 0x2028
                            || (n == 0x2029 || (n == 0x202F || (n == 0x205F || n == 0x3000)))))))))

-- strings.ToLower, with `lower` for unicode.ToLower
unfoldable pub map_runes : (Char → Char) → String → String
map_runes f [] = []
map_runes f (c ∷ s) = f c ∷ map_runes f s

abbrev pub is_empty : String → Bool
is_empty [] = true
is_empty (c ∷ s) = false

unfoldable pub trim_left : String → String
trim_left [] = []
trim_left (c ∷ s) = let rest = trim_left s in if is_space c then rest else c ∷ s

unfoldable pub trim_right : String → String
trim_right [] = []
trim_right (c ∷ s) = let rest = trim_right s in if is_space c && is_empty rest then [] else c ∷ rest

-- strings.TrimSpace
unfoldable pub trim_space : String → String
unfolding trim_left trim_right
trim_space s = trim_right (trim_left s)

-- strings.Fields: the word in front, and the words behind it.
abbrev pub add_word : String → List String → List String
add_word [] ws = ws
add_word (c ∷ w) ws = (List.◌∷◌ (c ∷ w) ws)

abbrev pub next_rune : Char → String × List String → String × List String
next_rune c (w, ws) = if is_space c then ([], add_word w ws) else (c ∷ w, ws)

unfoldable pub scan_fields : String → String × List String
scan_fields [] = ([], List.[])
scan_fields (c ∷ s) = next_rune c (scan_fields s)

unfoldable pub fields : String → List String
unfolding scan_fields
fields s = let (w, ws) = scan_fields s in add_word w ws

-- strings.Join
abbrev pub join_rest : String → List String → String
join_rest sep List.[] = []
join_rest sep (List.◌∷◌ w ws) = concat sep (concat w (join_rest sep ws))

unfoldable pub join : List String → String → String
join List.[] sep = []
join (List.◌∷◌ w ws) sep = concat w (join_rest sep ws)

-- strings.Split by one character: the part in front, and the parts behind it.
abbrev pub next_part : ℕ → Char → String × List String → String × List String
next_part sep c (p, ps) = if code c == sep then ([], (List.◌∷◌ p ps)) else (c ∷ p, ps)

unfoldable pub scan_parts : ℕ → String → String × List String
scan_parts sep [] = ([], List.[])
scan_parts sep (c ∷ s) = next_part sep c (scan_parts sep s)

unfoldable pub split : String → ℕ → List String
unfolding scan_parts
split s sep = let (p, ps) = scan_parts sep s in (List.◌∷◌ p ps)

-- strings.HasPrefix, and what strings.TrimPrefix leaves
abbrev pub same_rune : Char → Char → Bool
same_rune c d = code c == code d

unfoldable pub has_prefix : String → String → Bool
has_prefix s [] = true
has_prefix [] (d ∷ p) = false
has_prefix (c ∷ s) (d ∷ p) = same_rune c d && has_prefix s p

unfoldable pub drop_runes : String → String → String
drop_runes s [] = s
drop_runes [] (d ∷ p) = []
drop_runes (c ∷ s) (d ∷ p) = drop_runes s p

-- strconv.Itoa of a number that is not negative; `fuel` bounds the digits.
digits_from : ℕ → ℕ → String → String
digits_from zero n out = out
digits_from (suc fuel) n out = elim (n == 0) [
  | true ↦ out
  | false ↦ digits_from fuel (n / 10) (rune (b'0' + n % 10) ∷ out)
]

unfoldable pub itoa : ℕ → String
unfolding digits_from rune
itoa zero = "0"
itoa (suc n) = digits_from (suc n) (suc n) []
