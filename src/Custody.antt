-- ===== src/Custody.antt =====
-- The custody lock of a device: crates/myownmesh-core/src/custody.rs. HMAC-SHA1, SHA-256, base32 and
-- random bytes are parameters; the store on disk is a map from network ids to enrollments, and whether
-- it can be written is an argument. `trim` takes off ASCII white space.
pub mod Lock
pub mod Authoring
use my_own_mesh.Base.{
  ℕ, zero, suc, ◌+◌, ◌-◌, ◌*◌, ◌/◌, ◌%◌, ◌^◌, Bool, true, false, not, ◌&&◌, ◌||◌, Option, none,
  some, List, [], ◌∷◌, ◌++◌, map, any, all, filterb, length, get_elem?, take, unwrap_or, leb, ◌==◌,
  if◌then◌else◌,
}
use my_own_mesh.Base.Results.{Result, ok, err}
use my_own_mesh.Base.Text.{Text, text_eq, text_ordered, bytes}
use my_own_mesh.Base.TreeMap.{TreeMap, lookup, contains_key, insert, remove}

abbrev digits : ℕ
digits = 6

abbrev period : ℕ
period = 30

abbrev secret_len : ℕ
secret_len = 20

abbrev recovery_codes : ℕ
recovery_codes = 10

pub record Enrollment : Type 0 where
  pub secret_b32 : Text
  pub recovery_hashes : List Text
  pub created_at : ℕ

abbrev pub CustodyStore : Type 0
CustodyStore = TreeMap Text Enrollment

pub data Failure : Type 0 where
  already_enrolled code_required bad_secret invalid_code save_failed : Failure

-- `hmac_sha1(secret, counter)`, `hex(sha256(text))` and base32 without padding.
pub record Crypto : Type 0 where
  pub hmac : Text → ℕ → Text
  pub digest : Text → Text
  pub encode : Text → Text
  pub decode : Text → Option Text

abbrev is_space : ℕ → Bool
is_space c = (c == 32) || leb 9 c && leb c 13

trim_start : Text → Text
trim_start [] = []
trim_start (c ∷ cs) = let rest = trim_start cs in if is_space c then rest else c ∷ cs

trim_end : Text → Text
trim_end [] = []
trim_end (c ∷ cs) =
    let rest = trim_end cs in
    elim rest [ [] ↦ if is_space c then [] else c ∷ [] | d ∷ ds ↦ c ∷ d ∷ ds ]

trim : Text → Text
unfolding trim_start trim_end
trim s = trim_end (trim_start s)

-- `x ^ y` is 0 for equal bytes only.
pub constant_eq : Text → Text → Bool
constant_eq [] [] = true
constant_eq (x ∷ xs) (y ∷ ys) = let rest = constant_eq xs ys in (x == y) && rest
constant_eq _ _ = false

abbrev byte_at : Text → ℕ → ℕ
byte_at digest i = unwrap_or (get_elem? digest i) 0

hotp : Crypto → Text → ℕ → ℕ
hotp crypto secret counter =
    let digest = crypto.hmac secret counter in
    let offset = byte_at digest (length digest - 1) % 16 in
    (byte_at digest offset % 128 * 2 ^ 24
      + byte_at digest (offset + 1) * 2 ^ 16
      + byte_at digest (offset + 2) * 2 ^ 8
      + byte_at digest (offset + 3))
    % 10 ^ digits

-- The decimal digits, with zeros in front.
padded : ℕ → ℕ → Text
padded zero n = []
padded (suc width) n = padded width (n / 10) ++ (48 + n % 10) ∷ []

pub verify_totp_at : Crypto → Text → Text → ℕ → Bool
unfolding trim constant_eq hotp padded
verify_totp_at crypto secret code unix =
    let trimmed = trim code in
    let step = unix / period in
    if not (length trimmed == digits) || not (all (λ (b : ℕ). leb 48 b && leb b 57) trimmed)
    then false
    else any (λ (counter : ℕ). constant_eq (padded digits (hotp crypto secret counter)) trimmed)
        ((step - 1) ∷ step ∷ (step + 1) ∷ [])

abbrev is_alphanumeric : ℕ → Bool
is_alphanumeric c = leb 48 c && leb c 57 || leb 65 c && leb c 90 || leb 97 c && leb c 122

abbrev to_lowercase : ℕ → ℕ
to_lowercase c = if leb 65 c && leb c 90 then c + 32 else c

pub hash_code : Crypto → Text → Text
hash_code crypto code = crypto.digest (map to_lowercase (filterb is_alphanumeric code))

-- A recovery code, `xxxxx-xxxxx`, of eight random bytes.
recovery_code : Crypto → Text → Text
recovery_code crypto random =
    let c = take 10 (map to_lowercase (crypto.encode random)) in take 5 c ++ 45 ∷ drop5 c
  where
    drop5 : Text → Text
    drop5 (a ∷ b ∷ c ∷ d ∷ e ∷ rest) = rest
    drop5 _ = []

-- `remove(position)` of the first hash that is equal.
pub remove_hash : Text → List Text → List Text
unfolding constant_eq
remove_hash h [] = []
remove_hash h (x ∷ xs) = let rest = remove_hash h xs in if constant_eq x h then xs else x ∷ rest

-- The outcome of a call: none is success.
pub record Outcome : Type 0 where
  pub store : CustodyStore
  pub failure : Option Failure

-- A code that is given and not blank, trimmed.
unfoldable pub given_code : Option Text → Option Text
unfolding trim
given_code none = none
given_code (some code) = if is_empty (trim code) then none else some (trim code)
  where
    is_empty : Text → Bool
    is_empty [] = true
    is_empty (c ∷ cs) = false

module _ (crypto : Crypto) (now : ℕ) (saves : Bool) where
  -- `random` is the secret, and `codes` the recovery codes.
  enroll_at : Text → List Text → Text → CustodyStore → Outcome
  unfolding lookup contains_key insert hash_code
  enroll_at random codes network_id store =
      if contains_key network_id store
      then record { store = store; failure = some already_enrolled }
      else if not saves
      then record { store = store; failure = some save_failed }
      else record {
        store =
            insert network_id
              (record {
                secret_b32 = crypto.encode random;
                recovery_hashes = map (hash_code crypto) codes;
                created_at = now;
              })
              store;
        failure = none;
      }

  -- The check of a code against an enrollment.
  pub check_code : Text → Enrollment → Text → CustodyStore → Outcome
  unfolding verify_totp_at hash_code constant_eq remove_hash insert
  check_code network_id enrollment code store = elim (crypto.decode enrollment.secret_b32) [
    | none ↦ record { store = store; failure = some bad_secret }
    | some secret ↦
        let h = hash_code crypto code in
        if verify_totp_at crypto secret code now
        then record { store = store; failure = none }
        else if any (λ (x : Text). constant_eq x h) enrollment.recovery_hashes
        then if saves
          then record {
            store =
                insert network_id
                  (record enrollment { recovery_hashes = remove_hash h enrollment.recovery_hashes })
                  store;
            failure = none;
          }
          else record { store = store; failure = some save_failed }
        else record { store = store; failure = some invalid_code }
  ]

  unfoldable pub require_at : Text → Option Text → CustodyStore → Outcome
  unfolding lookup given_code check_code
  require_at network_id code store = elim (lookup network_id store) [
    | none ↦ record { store = store; failure = none }
    | some enrollment ↦ elim (given_code code) [
      | none ↦ record { store = store; failure = some code_required }
      | some given ↦ check_code network_id enrollment given store
    ]
  ]

  disable_at : Text → Text → CustodyStore → Outcome
  unfolding require_at remove
  disable_at network_id code store =
      let required = require_at network_id (some code) store in
      elim required.failure [
        | some failure ↦ required
        | none ↦
            if saves
            then record { store = remove network_id required.store; failure = none }
            else record { store = required.store; failure = some save_failed }
      ]
