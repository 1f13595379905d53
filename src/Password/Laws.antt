-- ===== src/Password/Laws.antt =====
-- Hashing and verifying fit together, across both schemes of hushline/password_hasher.py.
use hushline.Common.{
  ◌≡◌, refl, ap, ◌⊎◌, inl, inr, true, false, ◌&&◌, Option, none, some, String, arith, Bool-cases,
  eq_iff,
}
use hushline.Password.{
  Hashing, Config, is_legacy, is_scrypt, get_native_hash_prefix, hash_password,
  dispatch_password_verification, verify_password, prepare_password_rehash_on_auth, verified,
}

-- What the two libraries promise of one password: their hashes carry their scheme's prefix and
-- verify it.
pub record Verifies (h : Hashing) (p : String) : Type 0 where
  pub passlib_format : is_legacy (h.passlib_hash p) ≡ true
  pub passlib_accepts : h.passlib_verify p (h.passlib_hash p) ≡ some true
  pub werkzeug_not_legacy : is_legacy (h.generate_password_hash p) ≡ false
  pub werkzeug_format : get_native_hash_prefix (h.generate_password_hash p) ≡ some "scrypt:"
  pub werkzeug_accepts : h.check_password_hash (h.generate_password_hash p) p ≡ some true

module _ (h : Hashing) (cfg : Config) (p : String) where
  generated-Verifies : Verifies h p → verify_password h p (some (h.generate_password_hash p)) ≡ true
  unfolding verify_password
  generated-Verifies v = rw (v.werkzeug_not_legacy, v.werkzeug_format, v.werkzeug_accepts)

  -- Whichever scheme the configuration writes, a password verifies against its stored hash.
  pub verify-hash_password :
      Verifies h p → verify_password h p (some (hash_password h cfg p)) ≡ true
  unfolding hash_password
  verify-hash_password v =
      elim (Bool-cases (cfg.has_app_context && cfg.write_use_werkzeug_scrypt)) [
        | inl t ↦ rw t (generated-Verifies v)
        | inr f ↦ rw f (unfold verify_password in rw (v.passlib_format, v.passlib_accepts))
      ]

  prepare-eq-some :
      (stored new : String)
      → prepare_password_rehash_on_auth h cfg p (some stored) ≡ some new
      → (is_legacy stored ≡ true) × (new ≡ h.generate_password_hash p)
  unfolding prepare_password_rehash_on_auth
  prepare-eq-some stored new e = ground arith

  -- A replacement is prepared only for a legacy hash, verifies the same password, and is final: no
  -- further replacement is prepared for it.
  pub prepare-final :
      (stored new : String)
      → Verifies h p
      → prepare_password_rehash_on_auth h cfg p (some stored) ≡ some new
      → (is_legacy stored ≡ true)
        × (verify_password h p (some new) ≡ true)
        × (prepare_password_rehash_on_auth h cfg p (some new) ≡ none)
  unfolding prepare_password_rehash_on_auth
  prepare-final stored new v e =
      let (legacy, is_new) = prepare-eq-some stored new e in
      (legacy, rw is_new (generated-Verifies v), ground (arith, v.werkzeug_not_legacy))

  scrypt-eq : (o : Option String) → is_scrypt o ≡ true → o ≡ some "scrypt:"
  scrypt-eq none e = cc
  scrypt-eq (some prefix) e = ap some ((eq_iff prefix "scrypt:").0 e)

  accepted_by :
      (s : String)
      → verified (dispatch_password_verification h p s) ≡ true
      → ((is_legacy s ≡ true) × (h.passlib_verify p s ≡ some true))
        ⊎ ((is_legacy s ≡ false)
            × (get_native_hash_prefix s ≡ some "scrypt:")
            × (h.check_password_hash s p ≡ some true))
  unfolding dispatch_password_verification
  accepted_by s e = ground (arith, scrypt-eq (get_native_hash_prefix s))

  -- A password is accepted only by the library whose prefix the stored hash carries; a missing or
  -- malformed hash and any other prefix accept none.
  pub verify_password_sound :
      (stored : Option String)
      → verify_password h p stored ≡ true
      → (s : String) × (stored ≡ some s)
        × (((is_legacy s ≡ true) × (h.passlib_verify p s ≡ some true))
            ⊎ ((is_legacy s ≡ false)
                × (get_native_hash_prefix s ≡ some "scrypt:")
                × (h.check_password_hash s p ≡ some true)))
  unfolding verify_password get_native_hash_prefix
  verify_password_sound none e = cc
  verify_password_sound (some s) e = (s, refl, accepted_by s e)
