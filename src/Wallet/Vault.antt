-- ===== src/Wallet/Vault.antt =====
-- wallet_service.py: `_encrypt_field` and `_decrypt_field`. PBKDF2, AES-GCM and base64 are parameters.
use escrow_hub.Common.{Bool, Option, none, some, ◌++◌, if◌then◌else◌}
use escrow_hub.Text.{Text, codes, drop, starts_with}
use escrow_hub.Outcome.{Result, ok, err, ◌>>=◌, encryption_key_required, encrypted_without_key}

pub record Vault : Type 0 where
  -- whether ENCRYPTION_KEY is set
  pub has_key : Bool
  pub is_production : Bool
  -- the base64 of a nonce and the AES-GCM ciphertext, under the derived key
  pub seal : Text → Text
  pub unseal : Text → Result Text
  -- the same under the key of an `enc:` field
  pub unseal_legacy : Text → Result Text

-- `_aead`, where it gives no cipher
abbrev pub without_key : Vault → Result Text → Result Text
without_key v plain = if v.is_production then err encryption_key_required else plain

unfoldable pub encrypt_field : Vault → Text → Result Text
encrypt_field v value =
    if v.has_key then ok (codes "encv2:" ++ v.seal value) else without_key v (ok value)

unfoldable pub decrypt_text : Vault → Text → Result Text
decrypt_text v value =
    if starts_with (codes "encv2:") value
    then (if v.has_key then v.unseal (drop 6 value) else without_key v (err encrypted_without_key))
    else if starts_with (codes "enc:") value
    then (if v.has_key then v.unseal_legacy (drop 4 value) else err encrypted_without_key)
    else ok value

unfoldable pub decrypt_field : Vault → Option Text → Result (Option Text)
unfolding decrypt_text
decrypt_field v none = ok none
decrypt_field v (some value) = decrypt_text v value >>= λ plain. ok (some plain)
