-- ===== src/Primitives/Attestor.antt =====
-- core/primitives/src/attestor.rs, with the record of an attestor (state.rs) and the multisig address
-- (action.rs): what every registration must satisfy. A `&'static str` is its text, and a name is walked
-- by its code points: a byte of a character that is not ASCII fails every test here, as its code does.
use Prim.Native.Char.{code}
use Prim.Native.String.{len}
use arxium.Prelude.{
  ℕ, ◌+◌, String, Bool, true, not, ◌&&◌, ◌||◌, Option, none, some, List, [], ◌∷◌, ltb, leb, ◌==◌,
  number_key, if◌then◌else◌, any, retain, length, map, Result, ok, err, ◌>>=◌, ◌>>◌, reject_if,
  map_err,
}
use arxium.Primitives.Address.{Address, PublicKey}
use arxium.Primitives.Action.{SignatureError}
use arxium.Primitives.ValidatorSet.{sort}

pub record AttestorRecord : Type 0 where
  pub name : String
  pub registered_at : ℕ
  pub owners : List Address
  pub threshold : ℕ
  pub self_blocked : Bool
  pub removal_pending : Bool
  pub removal_cooldown_until : ℕ

abbrev pub blocked : AttestorRecord → Bool
blocked record' = record'.self_blocked || record'.removal_pending

-- The parts of an address that are bech32 and SHA-256, which are not the repository's code: does it
-- decode (`pubkey_bytes`), the 32-byte key that it decodes to, and the address of a threshold and its
-- members in ascending order.
pub record Keys : Type 0 where
  pub decodes : Address → Bool
  pub single_key : Address → Option PublicKey
  pub hashed_address : ℕ → List PublicKey → Result SignatureError Address

abbrev pub codes : String → List ℕ
codes String.[] = []
codes (String.◌∷◌ c s) = code c ∷ codes s

abbrev pub is_digit : ℕ → Bool
is_digit c = leb b'0' c && leb c b'9'

abbrev pub is_upper : ℕ → Bool
is_upper c = leb b'A' c && leb c b'Z'

abbrev pub is_lower : ℕ → Bool
is_lower c = leb b'a' c && leb c b'z'

abbrev pub is_alphanumeric : ℕ → Bool
is_alphanumeric c = is_digit c || is_upper c || is_lower c

abbrev pub allowed_in_name : ℕ → Bool
allowed_in_name c =
    is_alphanumeric c || any (λ b. b == c) (b' ' ∷ b'.' ∷ b'-' ∷ b'&' ∷ 39 ∷ b'(' ∷ b')' ∷ [])

-- `starts_with(' ')`, `ends_with(' ')` and `contains("  ")` in one walk; `before` is true after a space
-- and at the start.
unfoldable pub stray_spaces : Bool → List ℕ → Bool
stray_spaces before [] = before
stray_spaces before (c ∷ cs) = c == b' ' && before || stray_spaces (c == b' ') cs

pub validate_attestor_name : String → Result String (Unit {0})
validate_attestor_name name = do
  reject_if (ltb (len name) 3 || ltb 64 (len name)) "attestor name must be 3 to 64 characters"
  reject_if (any (λ c. not (allowed_in_name c)) (codes name))
      "attestor name allows only ASCII letters, digits, space and . - & ' ( )"
  reject_if (stray_spaces true (codes name)) "attestor name has stray spaces"
  reject_if (not (any is_alphanumeric (codes name))) "attestor name needs a letter or digit"

-- Case is folded first, then the lookalikes.
abbrev pub lower : ℕ → ℕ
lower c = if is_upper c then c + 32 else c

abbrev pub fold_lookalike : ℕ → ℕ
fold_lookalike c =
    if c == b'0'
    then b'o'
    else if c == b'1' || c == b'i'
    then b'l'
    else if c == b'5'
    then b's'
    else c

unfoldable pub attestor_name_skeleton : String → List ℕ
attestor_name_skeleton name =
    map (λ c. fold_lookalike (lower c)) (retain is_alphanumeric (codes name))

abbrev pub ascending : List PublicKey → Bool
ascending [] = true
ascending (a ∷ []) = true
ascending (a ∷ b ∷ rest) = ltb a b && ascending (b ∷ rest)

-- `policy_hash` and `multisig_address`
unfoldable pub multisig_address : Keys → ℕ → List PublicKey → Result SignatureError Address
multisig_address keys threshold unsorted = do
  let members = sort unsorted
  reject_if (length members == 0 || ltb 16 (length members))
      (SignatureError.bad_multisig "member count must be 1..=16")
  reject_if (threshold == 0 || ltb (length members) threshold)
      (SignatureError.bad_multisig "threshold must be 1..=members")
  reject_if (not (ascending members))
      (SignatureError.bad_multisig "members must be unique and ascending")
  keys.hashed_address threshold members

-- `collect::<Option<Vec<_>>>`
abbrev pub all_keys : Keys → List Address → Option (List PublicKey)
all_keys keys [] = some []
all_keys keys (owner ∷ owners) = elim (keys.single_key owner) [
  | none ↦ none
  | some key ↦ elim (all_keys keys owners) [ none ↦ none | some rest ↦ some (key ∷ rest) ]
]

pub validate_attestor_multisig : Keys → Address → List Address → ℕ → Result String (Unit {0})
validate_attestor_multisig keys attestor owners threshold = do
  reject_if (ltb threshold 2) "attestor multisig threshold must be at least 2"
  members ← elim (all_keys keys owners) [
    | none ↦ err "attestor owners must be single-key addresses"
    | some members ↦ ok members
  ]
  derived ←
      map_err (λ e. "attestor owners must be 2 to 16 unique keys, at least `threshold` of them")
        (multisig_address keys threshold members)
  reject_if (not (derived == attestor))
      "attestor address is not the multisig of its owners and threshold"
