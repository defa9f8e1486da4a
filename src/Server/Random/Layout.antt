-- ===== src/Server/Random/Layout.antt =====
-- services/simulation-server/src/randomness.rs: what is hashed tells the streams apart.
use mathlib.Core.List.{reverse, reverse-cons, reverse-reverse}
use scrap_monitoring_simulat.Results.{ok}
use scrap_monitoring_simulat.Prelude.{
  ℕ, ◌^◌, ◌≤◌, ◌<◌, ◌≡◌, refl, sym, ap, ◌∙◌, arith, List, [], ◌∷◌, ◌++◌, length, length-append,
  length-le_bytes, le_bytes, from_le_bytes, from_le_bytes-le_bytes, be_bytes, u32_max,
}
use scrap_monitoring_simulat.Server.Random.{
  StreamScope, global, sensor, scope_parts, seed_layout, layout, seed_prefix,
  simulation_model_version,
}

head_of : ℕ → List ℕ → ℕ
head_of d [] = d
head_of d (x ∷ xs) = x

tail_of : List ℕ → List ℕ
tail_of [] = []
tail_of (x ∷ xs) = xs

append_injective :
    (xs ys vs ws : List ℕ) → length xs ≡ length ys → xs ++ vs ≡ ys ++ ws → (xs ≡ ys) × (vs ≡ ws)
append_injective [] [] vs ws h e = (refl, e)
append_injective [] (y ∷ ys) vs ws h e = absurd (omega arith)
append_injective (x ∷ xs) [] vs ws h e = absurd (omega arith)
append_injective (x ∷ xs) (y ∷ ys) vs ws h e = ground (arith, append_injective xs ys vs ws)

length-reverse : (xs : List ℕ) → length (reverse xs) ≡ length xs
length-reverse [] = refl
length-reverse (x ∷ xs) =
    ap length (reverse-cons x xs)
    ∙ omega (arith, length-append (reverse xs) (x ∷ []), length-reverse xs)

length-be_bytes : (k v : ℕ) → length (be_bytes k v) ≡ k
length-be_bytes k v = length-reverse (le_bytes k v) ∙ length-le_bytes k v

be_bytes_injective : (k v w : ℕ) → v < 256 ^ k → w < 256 ^ k → be_bytes k v ≡ be_bytes k w → v ≡ w
be_bytes_injective k v w h i e =
    sym (from_le_bytes-le_bytes k v h)
    ∙ ap from_le_bytes
        (sym (reverse-reverse (le_bytes k v)) ∙ ap reverse e ∙ reverse-reverse (le_bytes k w))
    ∙ from_le_bytes-le_bytes k w i

-- A field of a known width in front of the rest.
field_injective :
    (k v w : ℕ) (vs ws : List ℕ)
    → v < 256 ^ k
    → w < 256 ^ k
    → be_bytes k v ++ vs ≡ be_bytes k w ++ ws
    → (v ≡ w) × (vs ≡ ws)
field_injective k v w vs ws h i e =
    let (front, rest) =
      append_injective (be_bytes k v) (be_bytes k w) vs ws
        (length-be_bytes k v ∙ sym (length-be_bytes k w)) e in
    (be_bytes_injective k v w h i front, rest)

-- A label behind its length.
label_injective :
    (xs ys vs ws : List ℕ)
    → length xs ≤ u32_max
    → length ys ≤ u32_max
    → be_bytes 4 (length xs) ++ xs ++ vs ≡ be_bytes 4 (length ys) ++ ys ++ ws
    → (xs ≡ ys) × (vs ≡ ws)
label_injective xs ys vs ws h i e =
    let (lengths, rest) =
      field_injective 4 (length xs) (length ys) (xs ++ vs) (ys ++ ws) (omega arith) (omega arith)
        e in
    append_injective xs ys vs ws lengths rest

cons_injective : (x y : ℕ) (xs ys : List ℕ) → x ∷ xs ≡ y ∷ ys → (x ≡ y) × (xs ≡ ys)
cons_injective x y xs ys e = ground arith

layout_injective :
    (r q t u : ℕ) (d e l m : List ℕ)
    → r < 2 ^ 64
    → q < 2 ^ 64
    → length d ≤ u32_max
    → length e ≤ u32_max
    → length l ≤ u32_max
    → length m ≤ u32_max
    → layout r t d l ≡ layout q u e m
    → (r ≡ q) × (t ≡ u) × (d ≡ e) × (l ≡ m)
unfolding layout
layout_injective r q t u d e l m hr hq hd he hl hm k =
    let (prefix, versioned) = append_injective seed_prefix seed_prefix _ _ refl k in
    let (version, seeded) =
      append_injective (be_bytes 4 simulation_model_version) (be_bytes 4 simulation_model_version) _
        _ refl versioned in
    let (seeds, tagged) = field_injective 8 r q _ _ (omega arith) (omega arith) seeded in
    let (tags, labels) = cons_injective t u _ _ tagged in
    let (domains, last) =
      label_injective d e (be_bytes 4 (length l) ++ l) (be_bytes 4 (length m) ++ m) hd he labels in
    let (lengths, scopes) =
      field_injective 4 (length l) (length m) l m (omega arith) (omega arith) last in
    (seeds, tags, domains, scopes)

-- Two streams whose layouts are built, and are the same, have the same root seed, scope and domain.
pub seed_layout_injective :
    (r q : ℕ) (s t : StreamScope) (d e bytes : List ℕ)
    → r < 2 ^ 64
    → q < 2 ^ 64
    → seed_layout r s d ≡ ok bytes
    → seed_layout q t e ≡ ok bytes
    → (r ≡ q) × (s ≡ t) × (d ≡ e)
unfolding seed_layout scope_parts
seed_layout_injective r q global global d e bytes hr hq h k =
    ground (arith, layout_injective r q 0 0 d e [] [])
seed_layout_injective r q global (sensor m) d e bytes hr hq h k =
    ground (arith, layout_injective r q 0 1 d e [] m)
seed_layout_injective r q (sensor l) global d e bytes hr hq h k =
    ground (arith, layout_injective r q 1 0 d e l [])
seed_layout_injective r q (sensor l) (sensor m) d e bytes hr hq h k =
    ground (arith, layout_injective r q 1 1 d e l m)
