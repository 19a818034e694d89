-- ===== src/Tests/Stores.antt =====
-- The theorems on the in-memory stores, at concrete inputs.
use vcknots.Common.{List, [], arith, eq_iff, false, refl, some, true, ◌∷◌, ◌≡◌}
use vcknots.Common.Map
use vcknots.Store.Jti
use vcknots.Store.Jti.{UsedJtis}
use vcknots.Store.Jti.Replay
use vcknots.Store.Nonce
use vcknots.Store.Nonce.{Nonce, NonceStates}
use vcknots.Store.Nonce.Once

-- Identifiers: `a` is kept up to 150, `old` may be forgotten from 41 on.
abbrev used_jtis : UsedJtis
used_jtis = ("old", 40) ∷ []

abbrev busy : List Jti.Replay.JtiCall
busy =
    record { key = "b"; ttl_ms = 10; now = 60 } ∷ record { key = "a"; ttl_ms = 900; now = 140 } ∷ []

fresh_a : (Jti.save_key_if_absent "a" 100 50 used_jtis).0 ≡ true
unfolding Jti.save_key_if_absent Jti.cleanup_expired Map.get Map.delete_if
fresh_a = refl

replay_refused_example :
    (Jti.save_key_if_absent "a" 5 150
      (Jti.Replay.run busy (Jti.save_key_if_absent "a" 100 50 used_jtis).1)).0
    ≡ false
unfolding Map.get
replay_refused_example =
    Jti.Replay.replay_refused "a" 100 50 busy 5 150 used_jtis (refl, tt) fresh_a
      (omega arith, (omega arith, tt)) (omega arith)

abbrev nonce_n : Nonce
nonce_n = record { nonce = "n"; nonce_expires_in = some 1000 }

abbrev nonces : NonceStates
nonces = ("n", record { nonce = nonce_n; expires_at = 1500 }) ∷ []

abbrev other_nonce : List Nonce.Once.NonceCall
other_nonce = Nonce.Once.saving (record { nonce = "m"; nonce_expires_in = some 9 }) 1200 ∷ []

n-NotSaved : Nonce.Once.NotSaved "n" other_nonce
n-NotSaved = ((λ e. ground (arith, eq_iff "m" "n")), tt)

consumed_once_example :
    ((Nonce.consume nonce_n 1300
        (Nonce.Once.run other_nonce (Nonce.consume nonce_n 1100 nonces).1)).0
      ≡ false)
    × ((Nonce.validate nonce_n 1300
          (Nonce.Once.run other_nonce (Nonce.consume nonce_n 1100 nonces).1)).0
        ≡ false)
consumed_once_example = Nonce.Once.consumed_once nonce_n 1100 other_nonce 1300 nonces n-NotSaved
