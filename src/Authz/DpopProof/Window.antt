-- ===== src/Authz/DpopProof/Window.antt =====
-- A proof against the store of used `jti`: how long the proof verifies, and how long its `jti` is kept.
use vcknots.Common.{List, String, arith, false, none, some, true, ℕ, ◌*◌, ◌+◌, ◌/◌, ◌≡◌, ◌≤◌}
use vcknots.Errors.{ok}
use vcknots.Common.Int.{ℤ, pos, pos_part, neg_part}
use vcknots.Common.Json.{Fields, member}
use vcknots.Common.Map
use vcknots.Common.Map.{IsMap}
use vcknots.Store.Jti
use vcknots.Store.Jti.{UsedJtis}
use vcknots.Store.Jti.Replay
use vcknots.Store.Jti.Replay.{JtiCall, AllBy}
use vcknots.Authz.Jose.{Jose, ProofJwtVerifyOptions, got}
use vcknots.Authz.DpopProof.{
  DpopProofVerifyContext, VerifiedDpopProof, DpopProofOptions, number_of, proof_jti_ttl_ms,
  proof_jwt_options, verify_proof,
}
use vcknots.Authz.DpopProof.Bound.{IsVerified, verify_proof-IsVerified}

-- A moment at which a JWT of that `iat` is neither too old nor issued in the future, with the
-- tolerance, in whole seconds.
pub record IsTimely (max_token_age clock_tolerance now : ℕ) (iat : ℤ) : Type 0 where
  pub not_too_old : now / 1000 + neg_part iat ≤ pos_part iat + (max_token_age + clock_tolerance)
  pub not_too_early : pos_part iat ≤ now / 1000 + clock_tolerance + neg_part iat

-- What `jwtVerify` documents of `maxTokenAge` and `clockTolerance`, and that the payload is the JWT's.
pub record ChecksAge {Key Material : Type 0} (jose : Jose Key Material) : Type 0 where
  pub timely :
      (jwt : String) (key : Key) (o : ProofJwtVerifyOptions) (now : ℕ) (claims : Fields)
      → jose.verify_proof_jwt jwt key o now ≡ got claims
      → (iat : ℤ) × (number_of (member "iat" claims) ≡ some iat)
        × IsTimely o.max_token_age o.clock_tolerance now iat
  pub stable :
      (jwt : String) (key : Key) (o : ProofJwtVerifyOptions) (now now2 : ℕ)
      (claims claims2 : Fields)
      → jose.verify_proof_jwt jwt key o now ≡ got claims
      → jose.verify_proof_jwt jwt key o now2 ≡ got claims2
      → claims ≡ claims2

module _ {Key Material : Type 0} (jose : Jose Key Material) (options : DpopProofOptions) where
  same_header :
      {p : String} {c c2 : DpopProofVerifyContext} {now now2 : ℕ} {v v2 : VerifiedDpopProof}
      (a : IsVerified jose options p c now v) (b : IsVerified jose options p c2 now2 v2)
      → (a.jwk ≡ b.jwk) × (a.alg ≡ b.alg) × (a.key ≡ b.key)
  same_header a b =
      let headers : a.header ≡ b.header = cc (a.decoded, b.decoded) in
      let jwks : a.jwk ≡ b.jwk = cc (headers, a.public_key.key, b.public_key.key) in
      let algs : a.alg ≡ b.alg = cc (headers, a.public_key.permitted, b.public_key.permitted) in
      (jwks, algs, cc (jwks, algs, a.imported, b.imported))

  -- The same proof gives the same key and the same `jti`, whenever and for what it is verified.
  same_identity :
      {p : String} {c c2 : DpopProofVerifyContext} {now now2 : ℕ} {v v2 : VerifiedDpopProof}
      → ChecksAge jose
      → IsVerified jose options p c now v
      → IsVerified jose options p c2 now2 v2
      → (v.jwk_thumbprint ≡ v2.jwk_thumbprint) × (v.jti ≡ v2.jti) × (v.iat ≡ v2.iat)
  same_identity {p} {c} {c2} {now} {now2} checks a b =
      let (jwks, algs, keys) = same_header a b in
      let signed : jose.verify_proof_jwt p b.key (proof_jwt_options jose options b.alg) now
          ≡ got a.claims =
        cc (keys, algs, a.signed) in
      let claims = checks.stable p b.key _ now now2 a.claims b.claims signed b.signed in
      (
        cc (jwks, a.thumbprint, b.thumbprint),
        cc (claims, a.stated.jti, b.stated.jti, a.same_jti, b.same_jti),
        cc (claims, a.stated.iat, b.stated.iat, a.same_iat, b.same_iat),
      )

  timely :
      {p : String} {c : DpopProofVerifyContext} {now : ℕ} {v : VerifiedDpopProof}
      → ChecksAge jose
      → IsVerified jose options p c now v
      → IsTimely options.max_token_age options.clock_tolerance now v.iat
  timely {p} {now = now} {v = v} checks a =
      let (iat, found, fresh) = checks.timely p a.key _ now a.claims a.signed in
      let same : iat ≡ v.iat = cc (found, a.stated.iat, a.same_iat) in rw (← same) fresh

  -- If `jwtVerify` checks the age as documented, a proof that was issued a second and more before its
  -- first use is used once: when it is verified again, at any moment, for any request, the store
  -- refuses its `jti`, whatever calls came in between. `delay` bounds the time from the second
  -- verification to its look-up in the store, and the proof must be older by that much.
  pub proof_used_once :
      (p : String) (c c2 : DpopProofVerifyContext) (now now2 t t2 n delay : ℕ)
      (v v2 : VerifiedDpopProof) (calls : List JtiCall) (m : UsedJtis)
      → ChecksAge jose
      → verify_proof jose options p c now ≡ ok v
      → verify_proof jose options p c2 now2 ≡ ok v2
      → v.iat ≡ pos n
      → 1000 * (n + 1) + delay ≤ t + 1
      → t2 ≤ now2 + delay
      → IsMap m
      → (Jti.save_dpop_jti_if_absent v.jwk_thumbprint v.jti (some (proof_jti_ttl_ms options)) t m).0
        ≡ true
      → AllBy (t + proof_jti_ttl_ms options) calls
      → (Jti.save_dpop_jti_if_absent v2.jwk_thumbprint v2.jti (some (proof_jti_ttl_ms options)) t2 (
          Jti.Replay.run calls
            (Jti.save_dpop_jti_if_absent v.jwk_thumbprint v.jti
              (some (proof_jti_ttl_ms options))
              t
              m).1)).0
        ≡ false
  unfolding Jti.save_dpop_jti_if_absent
  proof_used_once p c c2 now now2 t t2 n delay v v2 calls m checks first second issued older soon
        valid fresh early =
      let a = verify_proof-IsVerified jose options p c now v first in
      let b = verify_proof-IsVerified jose options p c2 now2 v2 second in
      let (keys, jtis, iats) = same_identity checks a b in
      let age = rw (← iats, issued) at (timely checks b).not_too_old in
      let refused =
        Jti.Replay.replay_refused (Jti.dpop_key v.jwk_thumbprint v.jti) (proof_jti_ttl_ms options) t
          calls (proof_jti_ttl_ms options) t2 m valid fresh early (omega (arith, age)) in
      rw (← keys, ← jtis) refused

  -- A proof that is verified at every moment at which its `iat` is timely, and is first used when its
  -- `iat` is ahead by the tolerance, is taken twice: the store takes its `jti` as new at its first use,
  -- and again a millisecond after the end of the entry, when the proof is still verified.
  pub early_proof_replayed :
      (p : String) (c : DpopProofVerifyContext) (n t : ℕ) (v : VerifiedDpopProof) (m : UsedJtis)
      → ((now : ℕ)
          → IsTimely options.max_token_age options.clock_tolerance now (pos n)
          → verify_proof jose options p c now ≡ ok v)
      → t + 1000 * options.clock_tolerance ≡ 1000 * n
      → IsMap m
      → Map.get (Jti.dpop_key v.jwk_thumbprint v.jti) m ≡ none
      → let ttl = proof_jti_ttl_ms options in
        let once = Jti.save_dpop_jti_if_absent v.jwk_thumbprint v.jti (some ttl) t m in
        let later = t + ttl + 1 in
        (verify_proof jose options p c t ≡ ok v)
        × (once.0 ≡ true)
        × (verify_proof jose options p c later ≡ ok v)
        × ((Jti.save_dpop_jti_if_absent v.jwk_thumbprint v.jti (some ttl) later once.1).0 ≡ true)
  unfolding Jti.save_dpop_jti_if_absent
  early_proof_replayed p c n t v m accepts dated valid absent =
      let ttl = proof_jti_ttl_ms options in
      let k = Jti.dpop_key v.jwk_thumbprint v.jti in
      let once = (Jti.Replay.save_key_if_absent_iff k ttl t m valid).1 (rw absent) in
      let kept = Jti.Replay.get-save_key_if_absent_self k ttl t m once in
      let valid2 = Jti.Replay.save_key_if_absent-IsMap k ttl t m valid in
      let over : Jti.Replay.live (t + ttl + 1) (some (t + ttl)) ≡ none = ground arith in
      (
        accepts t (record { not_too_old = omega arith; not_too_early = omega arith }),
        once,
        accepts (t + ttl + 1) (record { not_too_old = omega arith; not_too_early = omega arith }),
        (Jti.Replay.save_key_if_absent_iff k ttl (t + ttl + 1) _ valid2).1 (rw kept over),
      )
