-- ===== src/Lock/Integrity.antt =====
-- internal/domain/lock/integrity.go: hashes of contents. The digests of `crypto/sha256` and
-- `crypto/sha512`, in the lower-case hexadecimal digits of `hex.EncodeToString`, are parameters.
-- The values of an error's message that come from a format are its arguments.
pub mod Laws
use Prim.Native.Char.{code}
use Prim.Native.String.{◌++◌ as str_append}
use preflight.Base.{
  String, Bool, Fallible, Option, [], cut, fails, false, if◌then◌else◌, leb, none, not, returns,
  some, str_eq, true, ℕ, ◌&&◌, ◌+◌, ◌==◌, ◌||◌, ◌∷◌,
}

pub data IntegrityError : Type 0 where
  unsupported_algorithm : String → IntegrityError
  empty_hash invalid_encoding : IntegrityError
  invalid_length : ℕ → String → ℕ → IntegrityError
  empty_integrity missing_separator empty_algorithm empty_digest : IntegrityError

pub record Integrity : Type 0 where
  pub algorithm : String
  pub hash : String

-- `hashLengths[algorithm]`
abbrev pub hash_length : String → Option ℕ
hash_length algorithm =
    if str_eq algorithm "sha256"
    then some 64
    else if str_eq algorithm "sha512"
    then some 128
    else none

abbrev pub is_hex : ℕ → Bool
is_hex n = (leb b'0' n && leb n b'9') || (leb b'a' n && leb n b'f') || (leb b'A' n && leb n b'F')

-- `hex.DecodeString` succeeds: an even number of digits, and no other byte.
unfoldable pub is_decodable : String → Bool
is_decodable String.[] = true
is_decodable (String.◌∷◌ c String.[]) = false
is_decodable (String.◌∷◌ c (String.◌∷◌ d s)) =
    is_hex (code c) && (is_hex (code d) && is_decodable s)

-- `len(hash)`, used for a text of hexadecimal digits, whose characters are single bytes.
unfoldable pub str_length : String → ℕ
str_length String.[] = 0
str_length (String.◌∷◌ c s) = 1 + str_length s

unfoldable pub new_integrity_of : Option ℕ → String → String → Fallible IntegrityError Integrity
new_integrity_of none algorithm hash = fails (unsupported_algorithm algorithm)
new_integrity_of (some expected) algorithm hash =
    if str_eq hash ""
    then fails empty_hash
    else if not (is_decodable hash)
    then fails invalid_encoding
    else if not (str_length hash == expected)
    then fails (invalid_length expected algorithm (str_length hash))
    else returns (record { algorithm = algorithm; hash = hash })

unfoldable pub new_integrity : String → String → Fallible IntegrityError Integrity
unfolding new_integrity_of
new_integrity algorithm hash = new_integrity_of (hash_length algorithm) algorithm hash

unfoldable pub parse_integrity_parts : Option (String × String) → Fallible IntegrityError Integrity
parse_integrity_parts none = fails missing_separator
parse_integrity_parts (some (algorithm, hash)) =
    if str_eq algorithm ""
    then fails empty_algorithm
    else if str_eq hash ""
    then fails empty_digest
    else new_integrity algorithm hash

unfoldable pub parse_integrity : String → Fallible IntegrityError Integrity
unfolding parse_integrity_parts
parse_integrity s =
    if str_eq s "" then fails empty_integrity else parse_integrity_parts (cut b':' s)

unfoldable pub show_integrity : Integrity → String
show_integrity i = str_append i.algorithm (str_append ":" i.hash)

unfoldable pub integrity_is_zero : Integrity → Bool
integrity_is_zero i = str_eq i.algorithm "" && str_eq i.hash ""

module _ {Content : Type 0} (sha256 sha512 : Content → String) where
  unfoldable pub integrity_from_data : String → Content → Integrity
  integrity_from_data algorithm content =
      if str_eq algorithm "sha256"
      then record { algorithm = algorithm; hash = sha256 content }
      else if str_eq algorithm "sha512"
      then record { algorithm = algorithm; hash = sha512 content }
      else record { algorithm = "sha256"; hash = sha256 content }

  unfoldable pub verify : Integrity → Content → Bool
  unfolding integrity_from_data integrity_is_zero
  verify i content =
      if integrity_is_zero i
      then false
      else str_eq (integrity_from_data i.algorithm content).hash i.hash
