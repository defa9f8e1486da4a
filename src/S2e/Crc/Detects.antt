-- ===== src/S2e/Crc/Detects.antt =====
-- services/simulation-server/src/s2e.rs: what `padded_crc32` detects.
use scrap_monitoring_simulat.Prelude.{
  ℕ, zero, suc, ◌-◌, ◌/◌, ◌%◌, ◌^◌, ◌<◌, ◌≡◌, ◌≢◌, refl, ◌∙◌, bit_and, bit_xor, List, [], ◌∷◌,
  foldl, ◌++◌, length, set, get_or, replicate, u32_max, arith, All, IsByte, All-append, length-set,
  bit_xor_comm, bit_xor_cancel, bit_xor_injective, bit_xor-lt, bit_and-one, bit_xor-zero,
}
use scrap_monitoring_simulat.S2e.Crc.{polynomial, crc_round, crc_rounds, crc_byte, padded_crc32}

abbrev IsWord : ℕ → Type 0
IsWord x = x < 2 ^ 32

round_even : (x : ℕ) → x % 2 ≡ 0 → crc_round x ≡ x / 2
unfolding crc_round
round_even x h = rw (bit_and-one, h) (bit_xor-zero (x / 2))

round_odd : (x : ℕ) → x % 2 ≡ 1 → crc_round x ≡ bit_xor (x / 2) polynomial
unfolding crc_round
round_odd x h = rw (bit_and-one, h) refl

-- The polynomial has its top bit set, so an odd word is known by the top bit of its round.
high : (x : ℕ) → x < 2 ^ 31 → bit_xor x polynomial < 2 ^ 31 → ⊥
high x h k =
    absurd (omega (arith, bit_xor-lt 31 x (bit_xor x polynomial) h k, bit_xor_cancel x polynomial))

crc_round-lt : (x : ℕ) → IsWord x → IsWord (crc_round x)
crc_round-lt x h = ground (arith, round_even x, round_odd x, bit_xor-lt 32 (x / 2) polynomial)

crc_round-injective : (x y : ℕ) → IsWord x → IsWord y → crc_round x ≡ crc_round y → x ≡ y
crc_round-injective x y h k e = ground (
  arith,
  round_even x,
  round_odd x,
  round_even y,
  round_odd y,
  high (x / 2),
  high (y / 2),
  bit_xor_injective polynomial (x / 2) (y / 2),
  bit_xor_comm polynomial (x / 2),
  bit_xor_comm polynomial (y / 2),
)

crc_rounds-lt : (n x : ℕ) → IsWord x → IsWord (crc_rounds n x)
unfolding crc_rounds
crc_rounds-lt zero x h = h
crc_rounds-lt (suc n) x h = crc_rounds-lt n (crc_round x) (crc_round-lt x h)

crc_rounds-injective : (n x y : ℕ) → IsWord x → IsWord y → crc_rounds n x ≡ crc_rounds n y → x ≡ y
unfolding crc_rounds
crc_rounds-injective zero x y h k e = e
crc_rounds-injective (suc n) x y h k e =
    crc_round-injective x y h k
      (crc_rounds-injective n (crc_round x) (crc_round y) (crc_round-lt x h) (crc_round-lt y k) e)

mixed-lt : (s b : ℕ) → IsWord s → IsByte b → IsWord (bit_xor s b)
mixed-lt s b h k = bit_xor-lt 32 s b h (omega arith)

crc_byte-lt : (s b : ℕ) → IsWord s → IsByte b → IsWord (crc_byte s b)
unfolding crc_byte
crc_byte-lt s b h k = crc_rounds-lt 8 (bit_xor s b) (mixed-lt s b h k)

-- The state before a byte is known from the state after it.
crc_byte-injective :
    (s t b : ℕ) → IsWord s → IsWord t → IsByte b → crc_byte s b ≡ crc_byte t b → s ≡ t
unfolding crc_byte
crc_byte-injective s t b h k l e = bit_xor_injective b s t (
    bit_xor_comm b s
    ∙ crc_rounds-injective 8 (bit_xor s b) (bit_xor t b) (mixed-lt s b h l) (mixed-lt t b k l) e
    ∙ bit_xor_comm t b)

-- So is the byte.
crc_byte-byte : (s a b : ℕ) → IsWord s → IsByte a → IsByte b → crc_byte s a ≡ crc_byte s b → a ≡ b
unfolding crc_byte
crc_byte-byte s a b h k l e =
    bit_xor_injective s a b
      (crc_rounds-injective 8 (bit_xor s a) (bit_xor s b) (mixed-lt s a h k) (mixed-lt s b h l) e)

foldl-injective :
    (xs : List ℕ) (s t : ℕ)
    → IsWord s
    → IsWord t
    → All IsByte xs
    → foldl crc_byte s xs ≡ foldl crc_byte t xs
    → s ≡ t
foldl-injective [] s t h k b e = e
foldl-injective (x ∷ xs) s t h k b e = crc_byte-injective s t x h k b.0 (
    foldl-injective xs (crc_byte s x) (crc_byte t x) (crc_byte-lt s x h b.0) (crc_byte-lt t x k b.0)
      b.1 e)

foldl-set :
    (xs pad : List ℕ) (s i b : ℕ)
    → IsWord s
    → All IsByte xs
    → All IsByte pad
    → IsByte b
    → i < length xs
    → foldl crc_byte s (set xs i b ++ pad) ≡ foldl crc_byte s (xs ++ pad)
    → b ≡ get_or xs i 0
foldl-set [] pad s i b h a p k l e = absurd (omega arith)
foldl-set (x ∷ xs) pad s zero b h a p k l e = crc_byte-byte s b x h k a.0 (
    foldl-injective (xs ++ pad) (crc_byte s b) (crc_byte s x) (crc_byte-lt s b h k)
      (crc_byte-lt s x h a.0) (All-append xs pad a.1 p) e)
foldl-set (x ∷ xs) pad s (suc i) b h a p k l e =
    foldl-set xs pad (crc_byte s x) i b (crc_byte-lt s x h a.0) a.1 p k (omega arith) e

zeros-IsByte : (n : ℕ) → All IsByte (replicate n 0)
zeros-IsByte zero = tt
zeros-IsByte (suc n) = (omega arith, zeros-IsByte n)

-- Bytes of which any one is set to another byte have another checksum.
pub padded_crc32-set :
    (bytes : List ℕ) (i b : ℕ)
    → All IsByte bytes
    → IsByte b
    → i < length bytes
    → b ≢ get_or bytes i 0
    → padded_crc32 (set bytes i b) ≢ padded_crc32 bytes
unfolding padded_crc32
padded_crc32-set bytes i b a k l changed e =
    let pad = replicate (4 - bit_and (length bytes) 3) 0 in
    let same_pad : foldl crc_byte u32_max (set bytes i b ++ pad)
        ≡ foldl crc_byte u32_max (bytes ++ pad) =
      bit_xor_injective u32_max _ _
        (bit_xor_comm u32_max _ ∙ (rw (length-set bytes i b) at e) ∙ bit_xor_comm _ u32_max) in
    changed (foldl-set bytes pad u32_max i b (omega arith) a (zeros-IsByte _) k l same_pad)

-- The checksum fits the four bytes that it is written to.
pub padded_crc32-lt : (bytes : List ℕ) → All IsByte bytes → padded_crc32 bytes < 2 ^ 32
unfolding padded_crc32
padded_crc32-lt bytes a =
    bit_xor-lt 32 _ u32_max
      (foldl-lt (bytes ++ replicate _ 0) u32_max (omega arith)
        (All-append bytes _ a (zeros-IsByte _)))
      (omega arith)
  where
    foldl-lt : (xs : List ℕ) (s : ℕ) → IsWord s → All IsByte xs → IsWord (foldl crc_byte s xs)
    foldl-lt [] s h b = h
    foldl-lt (x ∷ xs) s h b = foldl-lt xs (crc_byte s x) (crc_byte-lt s x h b.0) b.1
