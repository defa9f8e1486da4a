-- ===== src/Prelude/Slices.antt =====
-- Slices of byte buffers: sub-ranges and writes in place, on lists.
use Prim.Native.Nat.{ℕ, zero, suc, ◌+◌, ◌≤◌}
use mathlib.Core.Path.{◌≡◌, refl, sym, ap, ◌∙◌}
use mathlib.Core.List.{List, [], ◌∷◌, ◌++◌, append_assoc}
use native.Mathlib.Omega.{arith}
use scrap_monitoring_simulat.Prelude.Lists.{
  length, take, drop, length-append, length-take, length-drop,
}

module _ {ℓ} {A : Type ℓ} where
  -- `xs[from..from + count]`.
  abbrev pub slice : ℕ → ℕ → List A → List A
  slice from count xs = take count (drop from xs)

  -- `xs[off..off + ys.len()].copy_from_slice(ys)` for a range inside `xs`.
  pub write_at : ℕ → List A → List A → List A
  write_at off ys xs = take off xs ++ (ys ++ drop (off + length ys) xs)

  pub take-append : (xs ys : List A) (n : ℕ) → n ≡ length xs → take n (xs ++ ys) ≡ xs
  take-append [] ys zero h = refl
  take-append [] ys (suc n) h = absurd (omega arith)
  take-append (x ∷ xs) ys zero h = absurd (omega arith)
  take-append (x ∷ xs) ys (suc n) h = ap (◌∷◌ x) (take-append xs ys n (omega arith))

  pub drop-append : (xs ys : List A) (n : ℕ) → n ≡ length xs → drop n (xs ++ ys) ≡ ys
  drop-append [] ys zero h = refl
  drop-append [] ys (suc n) h = absurd (omega arith)
  drop-append (x ∷ xs) ys zero h = absurd (omega arith)
  drop-append (x ∷ xs) ys (suc n) h = drop-append xs ys n (omega arith)

  pub take_all : (xs : List A) (n : ℕ) → length xs ≤ n → take n xs ≡ xs
  take_all [] zero h = refl
  take_all [] (suc n) h = refl
  take_all (x ∷ xs) zero h = absurd (omega arith)
  take_all (x ∷ xs) (suc n) h = ap (◌∷◌ x) (take_all xs n (omega arith))

  pub length-write_at :
      (off : ℕ) (ys xs : List A)
      → off + length ys ≤ length xs
      → length (write_at off ys xs) ≡ length xs
  unfolding write_at
  length-write_at off ys xs h = omega (
    arith,
    length-append (take off xs) (ys ++ drop (off + length ys) xs),
    length-append ys (drop (off + length ys) xs),
    length-take off xs,
    length-drop (off + length ys) xs,
  )

  -- What stands before the end of the written range: the old prefix, then the new bytes.
  pub take-write_at :
      (off : ℕ) (ys xs : List A) (n : ℕ)
      → off + length ys ≤ length xs
      → n ≡ off + length ys
      → take n (write_at off ys xs) ≡ take off xs ++ ys
  unfolding write_at
  take-write_at off ys xs n h e = rw (← append_assoc (take off xs) ys (drop (off + length ys) xs)) (
      take-append (take off xs ++ ys) (drop (off + length ys) xs) n
        (omega (arith, length-append (take off xs) ys, length-take off xs)))

  pub drop-drop : (m n k : ℕ) (xs : List A) → k ≡ m + n → drop n (drop m xs) ≡ drop k xs
  drop-drop zero n k xs e = let e' : n ≡ k = omega arith in rw e'
  drop-drop (suc m) zero zero [] e = refl
  drop-drop (suc m) (suc n) zero [] e = absurd (omega arith)
  drop-drop (suc m) zero (suc k) [] e = refl
  drop-drop (suc m) (suc n) (suc k) [] e = refl
  drop-drop (suc m) n zero (x ∷ xs) e = absurd (omega arith)
  drop-drop (suc m) n (suc k) (x ∷ xs) e = drop-drop m n k xs (omega arith)

  pub take_add : (m n k : ℕ) (xs : List A) → k ≡ m + n → take m xs ++ take n (drop m xs) ≡ take k xs
  take_add zero n k xs e = let e' : n ≡ k = omega arith in rw e'
  take_add (suc m) zero zero [] e = refl
  take_add (suc m) (suc n) zero [] e = absurd (omega arith)
  take_add (suc m) zero (suc k) [] e = refl
  take_add (suc m) (suc n) (suc k) [] e = refl
  take_add (suc m) n zero (x ∷ xs) e = absurd (omega arith)
  take_add (suc m) n (suc k) (x ∷ xs) e = ap (◌∷◌ x) (take_add m n k xs (omega arith))

  -- What stands behind the written range.
  pub drop-write_at :
      (off : ℕ) (ys xs : List A) (n : ℕ)
      → off + length ys ≤ length xs
      → n ≡ off + length ys
      → drop n (write_at off ys xs) ≡ drop n xs
  unfolding write_at
  drop-write_at off ys xs n h e =
      rw
        (
          ← append_assoc (take off xs) ys (drop (off + length ys) xs),
          drop-append (take off xs ++ ys) (drop (off + length ys) xs) n
              (omega (arith, length-append (take off xs) ys, length-take off xs)),
        )
        (ap (λ k. drop k xs) (sym e))

  pub take-append_le : (xs ys : List A) (n : ℕ) → n ≤ length xs → take n (xs ++ ys) ≡ take n xs
  take-append_le xs ys zero h = refl
  take-append_le [] ys (suc n) h = absurd (omega arith)
  take-append_le (x ∷ xs) ys (suc n) h = ap (◌∷◌ x) (take-append_le xs ys n (omega arith))

  pub take-take : (n m : ℕ) (xs : List A) → n ≤ m → take n (take m xs) ≡ take n xs
  take-take zero m xs h = refl
  take-take (suc n) zero xs h = absurd (omega arith)
  take-take (suc n) (suc m) [] h = refl
  take-take (suc n) (suc m) (x ∷ xs) h = ap (◌∷◌ x) (take-take n m xs (omega arith))

  -- A write does not touch what stands before it.
  pub take-write_at_before :
      (off : ℕ) (ys xs : List A) (n : ℕ)
      → off ≤ length xs
      → n ≤ off
      → take n (write_at off ys xs) ≡ take n xs
  unfolding write_at
  take-write_at_before off ys xs n h e =
      take-append_le (take off xs) (ys ++ drop (off + length ys) xs) n
        (omega (arith, length-take off xs))
      ∙ take-take n off xs e

  -- Two writes side by side are one.
  pub write_at-write_at :
      (off : ℕ) (a b xs : List A) (n : ℕ)
      → n ≡ off + length a
      → off + length a + length b ≤ length xs
      → write_at n b (write_at off a xs) ≡ write_at off (a ++ b) xs
  unfolding write_at
  write_at-write_at off a b xs n e h =
      outer
      ∙ append_assoc (take off xs) a (b ++ drop (off + length (a ++ b)) xs)
      ∙ ap (◌++◌ (take off xs)) (sym (append_assoc a b (drop (off + length (a ++ b)) xs)))
    where
      rest : drop (n + length b) (write_at off a xs) ≡ drop (off + length (a ++ b)) xs
      rest =
          sym (drop-drop n (length b) (n + length b) (write_at off a xs) refl)
          ∙ ap (drop (length b)) (drop-write_at off a xs n (omega arith) e)
          ∙ drop-drop n (length b) (off + length (a ++ b)) xs (omega (arith, length-append a b))

      outer :
          write_at n b (write_at off a xs)
          ≡ (take off xs ++ a) ++ (b ++ drop (off + length (a ++ b)) xs)
      outer =
          ap (λ t. t ++ (b ++ drop (n + length b) (write_at off a xs)))
            (take-write_at off a xs n (omega arith) e)
          ∙ ap (λ t. (take off xs ++ a) ++ (b ++ t)) rest

  pub drop-take : (n k m : ℕ) (xs : List A) → m ≡ n + k → drop n (take m xs) ≡ take k (drop n xs)
  drop-take zero k m xs e = let e' : m ≡ k = omega arith in rw e'
  drop-take (suc n) k zero xs e = absurd (omega arith)
  drop-take (suc n) zero (suc m) [] e = refl
  drop-take (suc n) (suc k) (suc m) [] e = refl
  drop-take (suc n) k (suc m) (x ∷ xs) e = drop-take n k m xs (omega arith)

  -- The bytes that were written are read back.
  pub slice-write_at :
      (off n : ℕ) (ys xs : List A)
      → off ≤ length xs
      → n ≡ length ys
      → slice off n (write_at off ys xs) ≡ ys
  unfolding write_at
  slice-write_at off n ys xs h e =
      ap (take n) (
        drop-append (take off xs) (ys ++ drop (off + length ys) xs) off
          (omega (arith, length-take off xs)))
      ∙ take-append ys (drop (off + length ys) xs) n e
