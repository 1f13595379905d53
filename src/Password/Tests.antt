-- ===== src/Password/Tests.antt =====
-- The theorems on passwords with two concrete schemes.
use hushline.Common.{◌≡◌, refl, ◌⊎◌, true, false, none, some, String, ◌==◌, string_eq}
use Prim.Native.String
use hushline.Password.{
  Hashing, Config, is_legacy, get_native_hash_prefix, hash_password, verify_password,
  prepare_password_rehash_on_auth,
}
use hushline.Password.Laws.{Verifies, verify-hash_password, prepare-final, verify_password_sound}

-- Schemes that store the password behind their prefix.
abbrev pub plain : Hashing
plain = record {
  passlib_hash = λ p. String.◌++◌ "$scrypt$" p;
  passlib_verify = λ p h. some (h == String.◌++◌ "$scrypt$" p);
  generate_password_hash = λ p. String.◌++◌ "scrypt:" p;
  check_password_hash = λ h p. some (h == String.◌++◌ "scrypt:" p);
}

abbrev pub config : Config
config = record {
  has_app_context = true;
  write_use_werkzeug_scrypt = true;
  rehash_on_auth_enabled = true;
}

pub plain-Verifies : Verifies plain "hunter2"
unfolding get_native_hash_prefix
plain-Verifies = record {
  passlib_format = refl;
  passlib_accepts = refl;
  werkzeug_not_legacy = refl;
  werkzeug_format = refl;
  werkzeug_accepts = refl;
}

verify-hash_password_example :
    verify_password plain "hunter2" (some (hash_password plain config "hunter2")) ≡ true
verify-hash_password_example = verify-hash_password plain config "hunter2" plain-Verifies

replacement :
    prepare_password_rehash_on_auth plain config "hunter2" (some "$scrypt$hunter2")
    ≡ some "scrypt:hunter2"
unfolding prepare_password_rehash_on_auth
replacement = refl

legacy_hash_is_replaced :
    (is_legacy "$scrypt$hunter2" ≡ true)
    × (verify_password plain "hunter2" (some "scrypt:hunter2") ≡ true)
    × (prepare_password_rehash_on_auth plain config "hunter2" (some "scrypt:hunter2") ≡ none)
legacy_hash_is_replaced =
    prepare-final plain config "hunter2" "$scrypt$hunter2" "scrypt:hunter2" plain-Verifies
      replacement

accepted : verify_password plain "hunter2" (some "$scrypt$hunter2") ≡ true
unfolding verify_password
accepted = refl

verify_password_sound_example :
    (s : String) × (some "$scrypt$hunter2" ≡ some s)
    × (((is_legacy s ≡ true) × (plain.passlib_verify "hunter2" s ≡ some true))
        ⊎ ((is_legacy s ≡ false)
            × (get_native_hash_prefix s ≡ some "scrypt:")
            × (plain.check_password_hash s "hunter2" ≡ some true)))
verify_password_sound_example =
    verify_password_sound plain config "hunter2" (some "$scrypt$hunter2") accepted
