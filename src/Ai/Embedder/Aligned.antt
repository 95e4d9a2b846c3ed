-- ===== src/Ai/Embedder/Aligned.antt =====
-- Where EmbedBatch of internal/ai/embedder/embedder.go puts the vectors.
use coeus.Prelude.{
  ℕ, zero, suc, ◌<◌, ◌≡◌, refl, ap, ◌∙◌, sym, String, Bool, false, some, ok, List, [], ◌∷◌, map,
  length, get_elem?, ℤ, pos, negsuc, ◌==◌, arith, OnRet, ret, Bool-cases, Result-cases,
  Option-cases, inl, inr, if◌then◌else◌,
}
use coeus.Domain.Types.{Float, Vector}
use coeus.Storage.World.{World, Io}
use coeus.Ai.Embedder.{Embedding, embed_batch, place_all, set_at, blank, index_below, fits}

-- d.index == i
abbrev pub at_index : ℕ → ℤ → Bool
at_index i (pos n) = n == i
at_index i (negsuc n) = false

module _ (to_float32 : Float → Float) where
  -- The vector that the last element with the index gives, or `v` where there is none
  abbrev pub last_for : ℕ → List Embedding → Vector → Vector
  last_for i [] v = v
  last_for i (d ∷ ds) v =
      last_for i ds (if at_index i d.index then map to_float32 d.embedding else v)

length-set_at : (i : ℕ) (vec : Vector) (out : List Vector) → length (set_at i vec out) ≡ length out
unfolding set_at
length-set_at i vec [] = refl
length-set_at zero vec (v ∷ vs) = refl
length-set_at (suc i) vec (v ∷ vs) = ap suc (length-set_at i vec vs)

get_elem?-set_at :
    (i j : ℕ) (vec v : Vector) (out : List Vector)
    → get_elem? out j ≡ some v
    → get_elem? (set_at i vec out) j ≡ some (if i == j then vec else v)
unfolding set_at
get_elem?-set_at i j vec v [] e = absurd (ground arith)
get_elem?-set_at zero zero vec v (x ∷ out) e = refl
get_elem?-set_at zero (suc j) vec v (x ∷ out) e = ground arith
get_elem?-set_at (suc i) zero vec v (x ∷ out) e = ground arith
get_elem?-set_at (suc i) (suc j) vec v (x ∷ out) e =
    ground (arith, get_elem?-set_at i j vec v out e)

at_index-below : (n : ℕ) (x : ℤ) (i j : ℕ) → index_below n x ≡ some i → at_index j x ≡ (i == j)
at_index-below n (pos m) i j e = let same : m ≡ i = ground arith in ap (λ (k : ℕ). k == j) same
at_index-below n (negsuc m) i j e = absurd (ground arith)

module _ (to_float32 : Float → Float) (dim : ℕ) where
  -- Each place holds what the last element with its index gives.
  pub record Placed (items : List Embedding) (before out : List Vector) : Type 0 where
    pub same_length : length out ≡ length before
    pub at :
        (i : ℕ) (v : Vector)
        → get_elem? before i ≡ some v
        → get_elem? out i ≡ some (last_for to_float32 i items v)

  place_all-Placed :
      (items : List Embedding) (before out : List Vector)
      → place_all to_float32 dim items before ≡ ok out
      → Placed items before out
  unfolding place_all
  place_all-Placed [] before out e =
      let same : before ≡ out = ground arith in
      record { same_length = ap length (sym same); at = λ i v h. rw (sym same) h }
  place_all-Placed (d ∷ ds) before out e =
      elim (Option-cases (index_below (length before) d.index)) [
        | inl beyond ↦ absurd (ground arith)
        | inr (i, here) ↦ elim (Bool-cases (fits dim (map to_float32 d.embedding))) [
          | inr odd ↦ absurd (ground arith)
          | inl good ↦
              let vec : Vector = map to_float32 d.embedding in
              let more : place_all to_float32 dim ds (set_at i vec before) ≡ ok out =
                ground arith in
              let rest : Placed ds (set_at i vec before) out =
                place_all-Placed ds (set_at i vec before) out more in
              record {
                same_length = rest.same_length ∙ length-set_at i vec before;
                at = λ j v h.
                    rw (at_index-below (length before) d.index i j here)
                      (rest.at j (if i == j then vec else v) (get_elem?-set_at i j vec v before h));
              }
        ]
      ]

  -- One vector for each text, in the place of its index
  pub record IsAligned (texts : List String) (items : List Embedding) (out : List Vector)
      : Type 0 where
    pub one_each : length out ≡ length texts
    pub in_place :
        (i : ℕ) → i < length texts → get_elem? out i ≡ some (last_for to_float32 i items [])

  blank-length : (texts : List String) → length (blank texts) ≡ length texts
  unfolding blank
  blank-length [] = refl
  blank-length (t ∷ ts) = ap suc (blank-length ts)

  blank-nil : (texts : List String) (i : ℕ) → i < length texts → get_elem? (blank texts) i ≡ some []
  unfolding blank
  blank-nil [] i lt = absurd (omega arith)
  blank-nil (t ∷ ts) zero lt = refl
  blank-nil (t ∷ ts) (suc i) lt = blank-nil ts i (omega arith)

  aligned :
      (texts : List String) (items : List Embedding) (out : List Vector)
      → place_all to_float32 dim items (blank texts) ≡ ok out
      → IsAligned texts items out
  aligned texts items out e =
      let p : Placed items (blank texts) out = place_all-Placed items (blank texts) out e in
      record {
        one_each = p.same_length ∙ blank-length texts;
        in_place = λ i lt. p.at i [] (blank-nil texts i lt);
      }

  -- Where the service answers a batch, what EmbedBatch returns has one vector for each text, and at
  -- each place the vector of the last element of the answer that has its index, or an empty one
  -- where no element has it.
  pub embed_batch-IsAligned :
      (create_embeddings : List String → Io (List Embedding)) (texts : List String) (w w' : World)
      (items : List Embedding)
      → create_embeddings texts w ≡ ret items w'
      → OnRet
          (λ out _. IsAligned texts items out)
          (embed_batch to_float32 dim create_embeddings texts w)
  unfolding embed_batch
  embed_batch-IsAligned create_embeddings texts w w' items answer =
      elim (Bool-cases (length texts == 0)) [
        | inl empty ↦ rw empty tt
        | inr some_texts ↦ elim (Bool-cases (length items == length texts)) [
          | inr wrong ↦ rw (some_texts, answer, wrong) tt
          | inl right ↦ elim (Result-cases (place_all to_float32 dim items (blank texts))) [
            | inr (e, bad) ↦ rw (some_texts, answer, right, bad) tt
            | inl (out, good) ↦ rw (some_texts, answer, right, good) (aligned texts items out good)
          ]
        ]
      ]
