-- ===== src/Settings/Crypto.antt =====
-- app/services/crypto.py: `encrypt` and `decrypt`. Whether a key is configured and the Fernet of the
-- library with that key are parameters; Fernet answers `none` where it raises.
use backup_sentinel.Prelude.{
  if◌then◌else◌, Bool-cases, Option-cases, ◌==◌, ==-ne, String, ◌≡◌, refl, ◌≢◌, inl, inr, Bool,
  false, not, ◌||◌, Option, none, some, arith, nat_eq, string_eq,
}

abbrev or_same : String → Option String → String
or_same text none = text
or_same text (some other) = other

module _ (has_key : Bool) (fernet_encrypt fernet_decrypt : String → Option String) where
  unfoldable pub encrypt : String → String
  encrypt plaintext =
      if plaintext == "" || not has_key
      then plaintext
      else or_same plaintext (fernet_encrypt plaintext)

  unfoldable pub decrypt : String → String
  decrypt ciphertext =
      if ciphertext == "" || not has_key
      then ciphertext
      else or_same ciphertext (fernet_decrypt ciphertext)

  -- What the code relies on: a token is not empty and is read back; a text that cannot be encrypted
  -- is no token.
  pub record IsFernet : Type 0 where
    pub token : (text cipher : String) → fernet_encrypt text ≡ some cipher → cipher ≢ ""
    pub reads :
        (text cipher : String)
        → fernet_encrypt text ≡ some cipher
        → fernet_decrypt cipher ≡ some text
    pub refuses : (text : String) → fernet_encrypt text ≡ none → fernet_decrypt text ≡ none

  pub decrypt-encrypt : IsFernet → (text : String) → decrypt (encrypt text) ≡ text
  unfolding decrypt encrypt
  decrypt-encrypt laws text = elim (Bool-cases (text == "" || not has_key)) [
    | inl plain ↦ rw plain (rw plain refl)
    | inr secret ↦ rw secret (elim (Option-cases (fernet_encrypt text)) [
      | inl fails ↦ rw fails (rw secret (rw (laws.refuses text fails) refl))
      | inr (cipher, made) ↦ rw made (
          let ne : (cipher == "" || not has_key) ≡ false =
            ground (arith, secret, ==-ne cipher "" (laws.token text cipher made)) in
          rw ne (rw (laws.reads text cipher made) refl))
    ])
  ]
