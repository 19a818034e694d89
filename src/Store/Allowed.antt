-- ===== src/Store/Allowed.antt =====
-- in-memory-allowed-credential-configuration-store.provider.ts: which credential configurations an
-- access token may ask for, by the hash of the token. `now` is what the clock shows in the call.
pub mod Expiry
use vcknots.Common.{List, Option, String, if◌then◌else◌, none, some, ℕ, ◌*◌, ◌+◌}
use vcknots.Common.Map
use vcknots.Common.Map.{Map}
use vcknots.Common.Number.{Number}
use vcknots.Store.PreAuthorizedCode.{positive_seconds, has_expired}

pub record AllowedCredentialConfigurationStoreEntry : Type 0 where
  pub credential_configuration_ids : List String
  pub expires_at : ℕ

abbrev pub AllowedCredentialConfigurations : Type 0
AllowedCredentialConfigurations = Map AllowedCredentialConfigurationStoreEntry

unfoldable pub save :
    String
    → List String
    → Option Number
    → ℕ
    → AllowedCredentialConfigurations
    → AllowedCredentialConfigurations
save access_token_hash ids ttl now entries =
    Map.set access_token_hash
      (record {
        credential_configuration_ids = ids;
        expires_at = now + positive_seconds ttl * 1000;
      })
      entries

unfoldable pub fetch :
    String
    → ℕ
    → AllowedCredentialConfigurations
    → Option (List String) × AllowedCredentialConfigurations
fetch access_token_hash now entries = elim (Map.get access_token_hash entries) [
  | none ↦ (none, entries)
  | some entry ↦
      if has_expired (some entry.expires_at) now
      then (none, Map.delete access_token_hash entries)
      else (some entry.credential_configuration_ids, entries)
]

unfoldable pub delete : String → AllowedCredentialConfigurations → AllowedCredentialConfigurations
delete access_token_hash entries = Map.delete access_token_hash entries
