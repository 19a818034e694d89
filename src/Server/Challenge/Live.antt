-- ===== src/Server/Challenge/Live.antt =====
-- The nonce of a challenge.
use vcknots.Common.{Option, String, arith, eq_refl, refl, some, true, ℕ, ◌+◌, ◌≡◌, ◌≤◌}
use vcknots.Errors.{ok}
use vcknots.Common.Map
use vcknots.Store.Nonce
use vcknots.Store.Nonce.{NonceState, NonceStates}
use vcknots.Store.Nonce.Once.{is_live}
use vcknots.Authz.State.{Server}
use vcknots.Authz.Registration.{create_dpop_nonce_challenge}
use vcknots.Server.Challenge.{Challenged, dpop_nonce_response}

set-live :
    (k : String) (now : ℕ) (state : NonceState) (m : NonceStates)
    → now ≤ state.expires_at
    → is_live now (Map.get k (Map.set k state m)) ≡ true
set-live k now state m le = ground (arith, Map.get-set k k state m, eq_refl k)

-- A challenge never fails: it gives the generated nonce in its header, and this nonce is live for 5
-- minutes from then on.
pub challenged_nonce_live :
    {M A : Type 0} (uuid description : String) (status : ℕ) (www_authenticate : Option String)
    (s : Server M) (now : ℕ)
    → now ≤ s.clock s.readings + 300000
    → (answer : Challenged A) × (t : Server M) × (dpop_nonce_response uuid status description
          www_authenticate s
        ≡ (ok answer, t))
      × (answer.dpop_nonce ≡ some uuid)
      × (is_live now (Map.get uuid t.nonces) ≡ true)
unfolding dpop_nonce_response create_dpop_nonce_challenge Nonce.save
challenged_nonce_live uuid description status www_authenticate s now le =
    (_, _, refl, refl, set-live uuid now _ s.nonces le)
