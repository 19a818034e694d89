-- ===== src/Store/Allowed/Expiry.antt =====
-- What was saved for a token is fetched until its deadline, by that token's hash alone.
use vcknots.Common.{
  List, Option, String, arith, if◌then◌else◌, leb, none, some, ℕ, ◌*◌, ◌+◌, ◌=ˢ◌, ◌≡◌,
}
use vcknots.Common.Map
use vcknots.Common.Number.{Number}
use vcknots.Store.PreAuthorizedCode.{positive_seconds, has_expired}
use vcknots.Store.PreAuthorizedCode.Digits.{positive_seconds_pos}
use vcknots.Store.Allowed.{
  AllowedCredentialConfigurationStoreEntry, AllowedCredentialConfigurations, save, fetch,
}

abbrev pub granted : ℕ → Option AllowedCredentialConfigurationStoreEntry → Option (List String)
granted now none = none
granted now (some entry) =
    if has_expired (some entry.expires_at) now
    then none
    else some entry.credential_configuration_ids

pub fetch-granted :
    (key : String) (now : ℕ) (m : AllowedCredentialConfigurations)
    → (fetch key now m).0 ≡ granted now (Map.get key m)
unfolding fetch
fetch-granted key now m = ground arith

pub get-save :
    (key j : String) (ids : List String) (ttl : Option Number) (now : ℕ)
    (m : AllowedCredentialConfigurations)
    → Map.get j (save key ids ttl now m) ≡ (
        if key =ˢ j
        then some (record {
          credential_configuration_ids = ids;
          expires_at = now + positive_seconds ttl * 1000;
        })
        else Map.get j m)
unfolding save
get-save key j ids ttl now m = Map.get-set key j _ m

-- After `save`, `fetch` by the same hash gives what was saved up to the deadline and nothing after
-- it; `fetch` by another hash gives what it gave before.
pub fetch-save :
    (key j : String) (ids : List String) (ttl : Option Number) (now now' : ℕ)
    (m : AllowedCredentialConfigurations)
    → (fetch j now' (save key ids ttl now m)).0 ≡ (
        if key =ˢ j
        then (if leb now' (now + positive_seconds ttl * 1000) then some ids else none)
        else (fetch j now' m).0)
fetch-save key j ids ttl now now' m =
    rw (fetch-granted, fetch-granted, get-save) (ground (arith, positive_seconds_pos ttl))
