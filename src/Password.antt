-- ===== src/Password.antt =====
-- hushline/password_hasher.py: which scheme a stored hash is verified by, and when a legacy hash is
-- replaced at login. The telemetry only writes log lines and is left out.
pub mod Laws
pub mod Tests
use Prim.Native.Char.{Char, code}
use Prim.Native.String
use hushline.Common.{
  ℕ, zero, suc, Bool, true, false, ◌&&◌, ◌||◌, Option, none, some, String, if◌then◌else◌, ◌==◌,
  nat_eq, string_eq, leb, is_some,
}
use text.Mathlib.Text.{starts_with}

-- passlib's scrypt and werkzeug's hashes; `none` stands for the ValueError of a malformed hash.
pub record Hashing : Type 0 where
  pub passlib_hash : String → String
  pub passlib_verify : String → String → Option Bool
  pub generate_password_hash : String → String
  pub check_password_hash : String → String → Option Bool

pub record Config : Type 0 where
  pub has_app_context : Bool
  pub write_use_werkzeug_scrypt : Bool
  pub rehash_on_auth_enabled : Bool

abbrev pub legacy_passlib_scrypt_prefix : String
legacy_passlib_scrypt_prefix = "$scrypt$"

abbrev pub is_legacy : String → Bool
is_legacy stored = starts_with stored legacy_passlib_scrypt_prefix

-- The class `[a-z0-9_-]`.
abbrev is_prefix_char : Char → Bool
is_prefix_char c =
    leb b'a' (code c) && leb (code c) b'z'
    || (leb b'0' (code c) && leb (code c) b'9' || (code c == b'_' || code c == b'-'))

abbrev push : String → Char → String
push s c = String.◌++◌ s (String.◌∷◌ c String.[])

-- The regular expression `^([a-z0-9_-]{1,32}):`, with the characters that may still be taken.
native_prefix_from : ℕ → String → String → Option String
native_prefix_from left acc String.[] = none
native_prefix_from zero acc (String.◌∷◌ c s) = if code c == b':' then some (push acc c) else none
native_prefix_from (suc left) acc (String.◌∷◌ c s) =
    let rest = native_prefix_from left (push acc c) s in
    if code c == b':'
    then (if acc == "" then none else some (push acc c))
    else if is_prefix_char c
    then rest
    else none

-- `_get_native_hash_prefix`
unfoldable pub get_native_hash_prefix : String → Option String
unfolding native_prefix_from
get_native_hash_prefix stored = native_prefix_from 32 "" stored

abbrev pub is_scrypt : Option String → Bool
is_scrypt none = false
is_scrypt (some prefix) = prefix == "scrypt:"

-- The default of `stored_hash or ""`.
abbrev or_empty : Option String → String
or_empty none = ""
or_empty (some s) = s

unfoldable pub hash_password : Hashing → Config → String → String
hash_password h cfg plaintext =
    if cfg.has_app_context && cfg.write_use_werkzeug_scrypt
    then h.generate_password_hash plaintext
    else h.passlib_hash plaintext

unfoldable pub verify_primary_password_hash : Hashing → String → String → Option Bool
verify_primary_password_hash h plaintext stored =
    if is_scrypt (get_native_hash_prefix stored)
    then h.check_password_hash stored plaintext
    else some false

-- `_dispatch_password_verification`
unfoldable pub dispatch_password_verification : Hashing → String → String → Option Bool
unfolding verify_primary_password_hash
dispatch_password_verification h plaintext stored =
    if is_legacy stored
    then h.passlib_verify plaintext stored
    else if is_some (get_native_hash_prefix stored)
    then verify_primary_password_hash h plaintext stored
    else some false

abbrev verified : Option Bool → Bool
verified none = false
verified (some b) = b

unfoldable pub verify_password : Hashing → String → Option String → Bool
unfolding dispatch_password_verification
verify_password h plaintext stored =
    verified (dispatch_password_verification h plaintext (or_empty stored))

unfoldable pub prepare_password_rehash_on_auth :
    Hashing → Config → String → Option String → Option String
prepare_password_rehash_on_auth h cfg plaintext stored =
    if cfg.has_app_context
    then (if cfg.rehash_on_auth_enabled
        then (if is_legacy (or_empty stored)
            then some (h.generate_password_hash plaintext)
            else none)
        else none)
    else none
