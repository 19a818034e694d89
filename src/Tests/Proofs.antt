-- ===== src/Tests/Proofs.antt =====
-- The theorems on DPoP proofs, at concrete inputs: one proof, issued at second 100, whose age is
-- checked as documented.
use vcknots.Common.{
  String, [], arith, false, if◌then◌else◌, leb, none, refl, some, sym, trim, true, ℕ, ◌&&◌, ◌+◌,
  ◌/◌, ◌∙◌, ◌≡◌,
}
use vcknots.Errors.{ok}
use vcknots.Common.Int.{pos}
use vcknots.Common.Json.{str, num, obj, Fields, end, field, member}
use vcknots.Common.Map
use vcknots.Store.Jti
use vcknots.Store.Jti.Replay
use vcknots.Authz.Jose.{Jose, ProofJwtVerifyOptions, Attempt, got, threw}
use vcknots.Authz.DpopProof.{
  DpopProofOptions, DpopProofVerifyContext, VerifiedDpopProof, verify_proof, proof_jti_ttl_ms,
}
use vcknots.Authz.DpopProof.Bound
use vcknots.Authz.DpopProof.Window

abbrev proof_header : Fields
proof_header =
    field "typ" (str "dpop+jwt")
      (field "alg" (str "ES256") (field "jwk" (obj (field "kty" (str "EC") end)) end))

abbrev claims : Fields
claims =
    field "jti" (str "j")
      (field "iat" (num (pos 100)) (field "htm" (str "POST") (field "htu" (str "u") end)))

abbrev age_checked : ProofJwtVerifyOptions → ℕ → Attempt Fields
age_checked o now =
    if leb (now / 1000) (100 + (o.max_token_age + o.clock_tolerance))
      && leb 100 (now / 1000 + o.clock_tolerance)
    then got claims
    else threw "age"

abbrev jose : Jose String String
jose = record {
  decode = λ part. none;
  encode = λ fs. "e";
  token_hash = λ s. s;
  is_url = λ s. true;
  import_jwk = λ jwk alg. got "key";
  jwt_verify = λ token key options now. got tt;
  import_public = λ material alg. ok (some material);
  sign_with = λ material alg payload header. ok (some "s");
  protected_header = λ jwt. some proof_header;
  verify_proof_jwt = λ jwt key options now. age_checked options now;
  parse_url = λ value.
      some (record { protocol = "https:"; port = "443"; search = ""; hash = ""; location = value });
  href = λ url. url.location;
  jwk_thumbprint = λ jwk. some "t";
}

abbrev proofs : DpopProofOptions
proofs = record { max_token_age = 300; clock_tolerance = 60 }

abbrev request : DpopProofVerifyContext
request = record { htm = "post"; htu = "u"; nonce = none; access_token = none }

abbrev verified : VerifiedDpopProof
verified = record { jwk_thumbprint = "t"; jti = "j"; iat = pos 100; nonce = none }

timely_verified :
    (now : ℕ)
    → Window.IsTimely 300 60 now (pos 100)
    → verify_proof jose proofs "p" request now ≡ ok verified
unfolding verify_proof member trim
timely_verified now timely = ground (arith, timely.not_too_old, timely.not_too_early)

verified_now : verify_proof jose proofs "p" request 102000 ≡ ok verified
verified_now =
    timely_verified 102000 (record { not_too_old = omega arith; not_too_early = omega arith })

verified_later : verify_proof jose proofs "p" request 300000 ≡ ok verified
verified_later =
    timely_verified 300000 (record { not_too_old = omega arith; not_too_early = omega arith })

age_checked_claims :
    (o : ProofJwtVerifyOptions) (now : ℕ) (c : Fields)
    → age_checked o now ≡ got c
    → (claims ≡ c) × Window.IsTimely o.max_token_age o.clock_tolerance now (pos 100)
age_checked_claims o now c h =
    (ground arith, record { not_too_old = ground arith; not_too_early = ground arith })

jose-ChecksAge : Window.ChecksAge jose
unfolding member
jose-ChecksAge = record {
  timely = λ jwt key o now c h.
      let (same, timely) = age_checked_claims o now c h in (pos 100, rw (← same) refl, timely);
  stable = λ jwt key o now now2 c c2 h h2.
      sym (age_checked_claims o now c h).0 ∙ (age_checked_claims o now2 c2 h2).0;
}

verify_proof-IsVerified_example : Bound.IsVerified jose proofs "p" request 102000 verified
verify_proof-IsVerified_example =
    Bound.verify_proof-IsVerified jose proofs "p" request 102000 verified verified_now

first_use :
    (Jti.save_dpop_jti_if_absent "t" "j" (some (proof_jti_ttl_ms proofs)) 102000 []).0 ≡ true
unfolding Jti.save_dpop_jti_if_absent Jti.save_key_if_absent Jti.cleanup_expired Map.delete_if
    Map.get
first_use = refl

proof_used_once_example :
    (Jti.save_dpop_jti_if_absent "t" "j" (some (proof_jti_ttl_ms proofs)) 300005 (
      Jti.Replay.run []
        (Jti.save_dpop_jti_if_absent "t" "j" (some (proof_jti_ttl_ms proofs)) 102000 []).1)).0
    ≡ false
proof_used_once_example =
    Window.proof_used_once jose proofs "p" request request 102000 300000 102000 300005 100 5
      verified verified [] [] jose-ChecksAge verified_now verified_later refl (omega arith)
      (omega arith) tt first_use tt

unused : Map.get {V = ℕ} (Jti.dpop_key "t" "j") [] ≡ none
unfolding Map.get
unused = refl

early_proof_replayed_example :
    let ttl = proof_jti_ttl_ms proofs in
    let once = Jti.save_dpop_jti_if_absent "t" "j" (some ttl) 40000 [] in
    let later = 40000 + ttl + 1 in
    (verify_proof jose proofs "p" request 40000 ≡ ok verified)
    × (once.0 ≡ true)
    × (verify_proof jose proofs "p" request later ≡ ok verified)
    × ((Jti.save_dpop_jti_if_absent "t" "j" (some ttl) later once.1).0 ≡ true)
early_proof_replayed_example =
    Window.early_proof_replayed jose proofs "p" request 100 40000 verified [] timely_verified
      (omega arith) tt unused
