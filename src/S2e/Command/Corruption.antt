-- ===== src/S2e/Command/Corruption.antt =====
-- services/simulation-server/src/s2e.rs: the checksum of a command against damaged bytes.
use scrap_monitoring_simulat.Prelude.{
  ℕ, zero, suc, ◌<◌, ◌≤◌, ◌≡◌, refl, sym, ap, ◌∙◌, ◌≢◌, bit_and, bit_xor, none, some, inl, inr,
  List, [], ◌∷◌, ◌++◌, foldl, arith, length, get_or, set, take, length-append, length-set,
  Option-cases, zero-bit_xor, bit_xor-zero, bit_xor_assoc, bit_xor_self, bit_xor_injective,
  bit_xor_left_comm, bit_xor_cancel,
}
use scrap_monitoring_simulat.S2e.Command.{Command, checksum, parse_command}
use scrap_monitoring_simulat.S2e.Command.Frames.{
  IsSendable, checked_bytes, encode_command, parse_command-encode_command, split_last, accepted,
}

foldl-checksum : (acc : ℕ) (xs : List ℕ) → foldl bit_xor acc xs ≡ bit_xor acc (checksum xs)
foldl-checksum acc [] = sym (bit_xor-zero acc)
foldl-checksum acc (x ∷ xs) =
    foldl-checksum (bit_xor acc x) xs
    ∙ bit_xor_assoc acc x (checksum xs)
    ∙ ap (bit_xor acc)
        (sym (foldl-checksum (bit_xor 0 x) xs ∙ ap (λ z. bit_xor z (checksum xs)) (zero-bit_xor x)))

checksum-cons : (x : ℕ) (xs : List ℕ) → checksum (x ∷ xs) ≡ bit_xor x (checksum xs)
checksum-cons x xs =
    foldl-checksum (bit_xor 0 x) xs ∙ ap (λ z. bit_xor z (checksum xs)) (zero-bit_xor x)

checksum-append_one : (xs : List ℕ) (x : ℕ) → checksum (xs ++ x ∷ []) ≡ bit_xor (checksum xs) x
checksum-append_one [] x = refl
checksum-append_one (y ∷ xs) x =
    checksum-cons y (xs ++ x ∷ [])
    ∙ ap (bit_xor y) (checksum-append_one xs x)
    ∙ sym (bit_xor_assoc y (checksum xs) x)
    ∙ ap (λ z. bit_xor z x) (sym (checksum-cons y xs))

-- A byte that is changed shows in the checksum by its difference.
checksum-set :
    (xs : List ℕ) (i b : ℕ)
    → i < length xs
    → checksum (set xs i b) ≡ bit_xor (bit_xor (get_or xs i 0) b) (checksum xs)
checksum-set [] i b h = absurd (omega arith)
checksum-set (x ∷ xs) zero b h =
    simp (checksum-cons, bit_xor_assoc)
      (sym (
        bit_xor_left_comm x b (bit_xor x (checksum xs))
        ∙ ap (bit_xor b) (bit_xor_cancel x (checksum xs))))
checksum-set (x ∷ xs) (suc i) b h =
    simp (checksum-cons, checksum-set xs i b (omega arith))
      (bit_xor_left_comm x (bit_xor (get_or xs i 0) b) (checksum xs))

-- An accepted frame with a payload has the checksum 0, its last byte included.
checksum-accepted :
    (f : List ℕ) (c : Command) → 3 ≤ length f → parse_command f ≡ some c → checksum f ≡ 0
checksum-accepted [] c h e = absurd (omega arith)
checksum-accepted (s ∷ []) c h e = absurd (omega arith)
checksum-accepted (s ∷ k ∷ []) c h e = absurd (omega arith)
checksum-accepted (s ∷ k ∷ z ∷ rest) c h e =
    let a = accepted s k z rest c e in
    ap (λ t. checksum (s ∷ k ∷ z ∷ t)) (split_last rest z 0 a.size_byte)
    ∙ checksum-append_one (s ∷ k ∷ z ∷ take z rest) (get_or rest z 0)
    ∙ ap (λ t. bit_xor t (get_or rest z 0)) a.sum
    ∙ bit_xor_self (get_or rest z 0)

changed_byte :
    (f : List ℕ) (i b : ℕ)
    → i < length f
    → checksum f ≡ 0
    → checksum (set f i b) ≡ 0
    → b ≡ get_or f i 0
changed_byte f i b h e e' =
    let old = get_or f i 0 in
    let d : bit_xor old b ≡ 0 =
      sym (bit_xor-zero (bit_xor old b))
      ∙ ap (bit_xor (bit_xor old b)) (sym e)
      ∙ sym (checksum-set f i b h)
      ∙ e' in
    bit_xor_injective old b old (d ∙ sym (bit_xor_self old))

long_frame : (c : Command) → bit_and c.code 0x80 ≢ 0 → 3 ≤ length (encode_command c)
unfolding encode_command
long_frame c h = ground (arith, length-append c.payload (checksum (checked_bytes c) ∷ []))

-- The encoding of a sendable command whose code has the payload bit, with any one byte set to another
-- value, is rejected.
pub parse_command-set :
    (c : Command) (i b : ℕ)
    → IsSendable c
    → bit_and c.code 0x80 ≢ 0
    → i < length (encode_command c)
    → b ≢ get_or (encode_command c) i 0
    → parse_command (set (encode_command c) i b) ≡ none
parse_command-set c i b h long inside changed =
    elim (Option-cases (parse_command (set (encode_command c) i b))) [
      | inl e ↦ e
      | inr (c', e) ↦ absurd (
          changed (
            changed_byte (encode_command c) i b inside
              (checksum-accepted _ c (long_frame c long) (parse_command-encode_command c h))
              (checksum-accepted _ c'
                (omega (arith, length-set (encode_command c) i b, long_frame c long)) e)))
    ]
