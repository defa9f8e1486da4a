-- ===== src/S2e/Command/Frames.antt =====
-- services/simulation-server/src/s2e.rs: the frames that `parse_command` accepts.
use scrap_monitoring_simulat.Prelude.{
  ℕ, zero, suc, ◌+◌, ◌-◌, ◌%◌, ◌<◌, ◌≡◌, refl, ap, ◌≢◌, bit_and, some, List, [], ◌∷◌, ◌++◌, arith,
  ◌==◌, if◌then◌else◌, length, get_or, take, length-append, length-take, take-append, IsByte, All,
}
use native.Mathlib.Decide.{ℕ_discrete}
use scrap_monitoring_simulat.S2e.Command.{Command, command_sync, checksum, parse_command}

-- The bytes under the checksum of a command with a payload.
abbrev pub checked_bytes : Command → List ℕ
checked_bytes c = command_sync ∷ c.code ∷ (length c.payload % 256) ∷ c.payload

-- A client's frame for a command: two bytes, or the size, the payload and the checksum besides.
unfoldable pub encode_command : Command → List ℕ
encode_command c =
    if bit_and c.code 0x80 == 0
    then command_sync ∷ c.code ∷ []
    else checked_bytes c ++ checksum (checked_bytes c) ∷ []

-- A command that a client can send.
abbrev pub IsSendable : Command → Type 0
IsSendable c = (length c.payload < 256) × (bit_and c.code 0x80 ≡ 0 → c.payload ≡ [])

get_or-append : (xs : List ℕ) (x d n : ℕ) → n ≡ length xs → get_or (xs ++ x ∷ []) n d ≡ x
get_or-append [] x d zero h = refl
get_or-append [] x d (suc n) h = absurd (omega arith)
get_or-append (y ∷ xs) x d zero h = absurd (omega arith)
get_or-append (y ∷ xs) x d (suc n) h = get_or-append xs x d n (omega arith)

pub split_last : (xs : List ℕ) (n d : ℕ) → length xs ≡ suc n → xs ≡ take n xs ++ get_or xs n d ∷ []
split_last [] n d h = absurd (omega arith)
split_last (x ∷ []) zero d h = refl
split_last (x ∷ y ∷ xs) zero d h = absurd (omega arith)
split_last (x ∷ xs) (suc n) d h = ap (◌∷◌ x) (split_last xs n d (omega arith))

module _ (code : ℕ) (payload : List ℕ) where
  abbrev command : Command
  command = record { code = code; payload = payload }

  parse_command-short :
      bit_and code 0x80 ≡ 0 → payload ≡ [] → parse_command (encode_command command) ≡ some command
  unfolding parse_command encode_command
  parse_command-short h k = ground arith

  parse_command-long :
      bit_and code 0x80 ≢ 0
      → length payload < 256
      → parse_command (encode_command command) ≡ some command
  unfolding parse_command encode_command
  parse_command-long h k =
      let body = checked_bytes command in
      let sum = checksum body in
      ground (
        arith,
        length-append payload (sum ∷ []),
        take-append body (sum ∷ []) (length payload + 3) (omega arith),
        get_or-append body sum 0 (length payload + 3) (omega arith),
        take-append payload (sum ∷ []) (length payload) refl,
      )

-- The encoding of a command that a client can send is parsed as the same command.
pub parse_command-encode_command :
    (c : Command) → IsSendable c → parse_command (encode_command c) ≡ some c
parse_command-encode_command c h = elim (ℕ_discrete (bit_and c.code 0x80) 0) [
  | yes e ↦ parse_command-short c.code c.payload e (h.1 e)
  | no e ↦ parse_command-long c.code c.payload e h.0
]

-- What `parse_command` has checked when it accepts a command with a payload.
pub record Accepted (s k size : ℕ) (rest : List ℕ) (c : Command) : Type 0 where
  pub long : bit_and k 0x80 ≢ 0
  pub sync_byte : s ≡ command_sync
  pub size_byte : length rest ≡ suc size
  pub sum : checksum (s ∷ k ∷ size ∷ take size rest) ≡ get_or rest size 0
  pub code_byte : c.code ≡ k
  pub body : c.payload ≡ take size rest

all_but_last :
    (s k z n : ℕ) (rest : List ℕ)
    → length rest ≡ suc n
    → (take (length (s ∷ k ∷ z ∷ rest) - 1) (s ∷ k ∷ z ∷ rest) ≡ s ∷ k ∷ z ∷ take n rest)
      × (get_or (s ∷ k ∷ z ∷ rest) (length (s ∷ k ∷ z ∷ rest) - 1) 0 ≡ get_or rest n 0)
all_but_last s k z n rest h =
    let e : length (s ∷ k ∷ z ∷ rest) - 1 ≡ suc (suc (suc n)) = omega arith in rw e (refl, refl)

pub accepted :
    (s k size : ℕ) (rest : List ℕ) (c : Command)
    → parse_command (s ∷ k ∷ size ∷ rest) ≡ some c
    → Accepted s k size rest c
unfolding parse_command
accepted s k size rest c h = ground (arith, all_but_last s k size size rest)

-- A frame of bytes that `parse_command` accepts is the encoding of the command that it gives, and
-- that command is one that a client can send.
pub encode_command-parse_command :
    (frame : List ℕ) (c : Command)
    → All IsByte frame
    → parse_command frame ≡ some c
    → (frame ≡ encode_command c) × IsSendable c
unfolding parse_command encode_command
encode_command-parse_command [] c b h = cc
encode_command-parse_command (s ∷ []) c b h = cc
encode_command-parse_command (s ∷ k ∷ []) c b h = ground arith
encode_command-parse_command (s ∷ k ∷ size ∷ rest) c b h =
    ground (arith, accepted s k size rest c h, split_last rest size 0, length-take size rest)
