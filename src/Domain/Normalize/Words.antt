-- ===== src/Domain/Normalize/Words.antt =====
-- The words of a text, as NormalizeQuestion of internal/domain/question.go takes it apart.
use coeus.Prelude.{
  ◌≡◌, refl, sym, ap, ◌∙◌, String, Char, Bool, true, false, not, ◌&&◌, List, [], ◌∷◌, map, arith,
  All, Bool-cases, inl, inr, if◌then◌else◌, concat, is_space, map_runes, trim_left, trim_right,
  trim_space, is_empty, add_word, next_rune, scan_fields, fields, join_rest, join,
}

abbrev no_space : String → Bool
no_space String.[] = true
no_space (String.◌∷◌ c s) = not (is_space c) && no_space s

abbrev pub IsWord : String → Type 0
IsWord String.[] = ⊥
IsWord (String.◌∷◌ c s) = no_space (String.◌∷◌ c s) ≡ true

add_word-words :
    (w : String) (ws : List String) → no_space w ≡ true → All IsWord ws → All IsWord (add_word w ws)
add_word-words String.[] ws h k = k
add_word-words (String.◌∷◌ c w) ws h k = (h, k)

abbrev Scanned : String × List String → Type 0
Scanned (w, ws) = (no_space w ≡ true) × All IsWord ws

next_rune-Scanned : (c : Char) (p : String × List String) → Scanned p → Scanned (next_rune c p)
next_rune-Scanned c (w, ws) (h, k) = elim (Bool-cases (is_space c)) [
  | inl e ↦ rw e (refl, add_word-words w ws h k)
  | inr e ↦ rw (e, e) (h, k)
]

scan_fields-Scanned : (s : String) → Scanned (scan_fields s)
unfolding scan_fields
scan_fields-Scanned String.[] = (refl, tt)
scan_fields-Scanned (String.◌∷◌ c s) = next_rune-Scanned c (scan_fields s) (scan_fields-Scanned s)

pub fields-words : (s : String) → All IsWord (fields s)
unfolding fields
fields-words s =
    add_word-words (scan_fields s).0 (scan_fields s).1 (scan_fields-Scanned s).0
      (scan_fields-Scanned s).1

-- Space at either end of a text is no part of its words.
module _ (c : Char) (s : String) where
  trim_left-space : is_space c ≡ true → trim_left (String.◌∷◌ c s) ≡ trim_left s
  unfolding trim_left
  trim_left-space e = rw (trim_left, e) refl

  trim_left-solid : is_space c ≡ false → trim_left (String.◌∷◌ c s) ≡ String.◌∷◌ c s
  unfolding trim_left
  trim_left-solid e = rw (trim_left, e) refl

  fields-space : is_space c ≡ true → fields (String.◌∷◌ c s) ≡ fields s
  unfolding fields scan_fields
  fields-space e = rw (next_rune, e) refl

fields-trim_left : (s : String) → fields (trim_left s) ≡ fields s
unfolding trim_left
fields-trim_left String.[] = refl
fields-trim_left (String.◌∷◌ c s) = elim (Bool-cases (is_space c)) [
  | inl e ↦ ap fields (trim_left-space c s e) ∙ (fields-trim_left s ∙ sym (fields-space c s e))
  | inr e ↦ ap fields (trim_left-solid c s e)
]

trimmed_end :
    (c : Char) (r : String)
    → scan_fields (if is_space c && is_empty r then String.[] else String.◌∷◌ c r)
      ≡ next_rune c (scan_fields r)
unfolding scan_fields
trimmed_end c String.[] = elim (Bool-cases (is_space c)) [
  | inl e ↦ rw e refl
  | inr e ↦ rw (e, e) refl
]
trimmed_end c (String.◌∷◌ d r) = elim (Bool-cases (is_space c)) [
  | inl e ↦ rw (e, e) refl
  | inr e ↦ rw (e, e) refl
]

scan_fields-trim_right : (s : String) → scan_fields (trim_right s) ≡ scan_fields s
unfolding scan_fields trim_right
scan_fields-trim_right String.[] = refl
scan_fields-trim_right (String.◌∷◌ c s) =
    trimmed_end c (trim_right s) ∙ ap (next_rune c) (scan_fields-trim_right s)

pub fields-trim_space : (s : String) → fields (trim_space s) ≡ fields s
unfolding fields trim_space
fields-trim_space s =
    ap (λ p. add_word p.0 p.1) (scan_fields-trim_right (trim_left s)) ∙ fields-trim_left s

-- Joining words by one space and taking them apart again
concat_nil : (s : String) → concat s String.[] ≡ s
concat_nil String.[] = refl
concat_nil (String.◌∷◌ c s) = ap (λ r. String.◌∷◌ c r) (concat_nil s)

scan_fields-concat :
    (w t : String)
    → no_space w ≡ true
    → scan_fields (concat w t) ≡ (concat w (scan_fields t).0, (scan_fields t).1)
unfolding scan_fields
scan_fields-concat String.[] t h = refl
scan_fields-concat (String.◌∷◌ c w) t h =
    let solid : is_space c ≡ false = ground arith in
    ap (next_rune c) (scan_fields-concat w t (ground arith)) ∙ rw solid refl

word-no_space : (w : String) → IsWord w → no_space w ≡ true
word-no_space String.[] h = refl
word-no_space (String.◌∷◌ c w) h = h

add_word-cons : (w : String) (ws : List String) → IsWord w → add_word w ws ≡ w ∷ ws
add_word-cons String.[] ws h = absurd h
add_word-cons (String.◌∷◌ c w) ws h = refl

scan_fields-words :
    (w : String) (ws : List String)
    → IsWord w
    → All IsWord ws
    → scan_fields (concat w (join_rest " " ws)) ≡ (w, ws)
unfolding scan_fields is_space
scan_fields-words w [] h k =
    scan_fields-concat w String.[] (word-no_space w h) ∙ ap (λ v. (v, [])) (concat_nil w)
scan_fields-words w (v ∷ ws) h (k, ks) =
    scan_fields-concat w (join_rest " " (v ∷ ws)) (word-no_space w h)
    ∙ (rw (scan_fields-words v ws k ks, concat_nil w, add_word-cons v ws k) refl)

pub fields-join : (ws : List String) → All IsWord ws → fields (join ws " ") ≡ ws
unfolding fields join scan_fields
fields-join [] h = refl
fields-join (w ∷ ws) (h, k) =
    ap (λ p. add_word p.0 p.1) (scan_fields-words w ws h k) ∙ add_word-cons w ws h

module _ (lower : Char → Char) (keeps : (c : Char) → is_space (lower c) ≡ is_space c) where
  add_word-map :
      (w : String) (ws : List String)
      → add_word (map_runes lower w) (map (map_runes lower) ws)
        ≡ map (map_runes lower) (add_word w ws)
  unfolding map_runes
  add_word-map String.[] ws = refl
  add_word-map (String.◌∷◌ c w) ws = refl

  abbrev both : String × List String → String × List String
  both (w, ws) = (map_runes lower w, map (map_runes lower) ws)

  next_rune-map :
      (c : Char) (p : String × List String) → next_rune (lower c) (both p) ≡ both (next_rune c p)
  unfolding map_runes
  next_rune-map c (w, ws) = elim (Bool-cases (is_space c)) [
    | inl e ↦ rw (keeps c, e, add_word-map w ws) refl
    | inr e ↦ rw (keeps c, e) refl
  ]

  scan_fields-map : (s : String) → scan_fields (map_runes lower s) ≡ both (scan_fields s)
  unfolding scan_fields map_runes
  scan_fields-map String.[] = refl
  scan_fields-map (String.◌∷◌ c s) =
      ap (next_rune (lower c)) (scan_fields-map s) ∙ next_rune-map c (scan_fields s)

  pub fields-map_runes :
      (s : String) → fields (map_runes lower s) ≡ map (map_runes lower) (fields s)
  unfolding fields
  fields-map_runes s =
      ap (λ p. add_word p.0 p.1) (scan_fields-map s)
      ∙ add_word-map (scan_fields s).0 (scan_fields s).1
