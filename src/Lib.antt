-- ===== src/Lib.antt =====
-- The issuer and verifier library (`issuer+verifier/src`): its authorization server, its issuer
-- and its verifier, with the in-memory stores that they work on: who may have an access token, for
-- which code, which tokens the credential endpoint lets in, which credentials are issued, and
-- which presentations are accepted; and the server's routes over them (`server/core/src`).
--
-- The parts, and where they are:
--   Errors: `errors/error.codes.ts` and `errors/vcknots.error.ts`. An operation gives a result, `ok`
--   or what is thrown.
--   Store: the in-memory stores of `providers/in-memory/`, each a state and a function per operation,
--   which takes what `Date.now()` shows in it. Jti: the used `jti` of DPoP proofs and of client
--   assertions (`saveIfAbsent`). Nonce: `save`, `validate`, `revoke`, `consume`. PreAuthorizedCode:
--   `save` and `consume` with the lockout. Allowed: the credential configurations that an access
--   token may ask for. Transactions: the verifier's transactions.
--   Headers: `authorization-header.ts` and `parseDpopHeader` of `dpop-proof.ts`.
--   Authz: `authz.flows.ts`. Types: the records that the stores hold. Request: the fields of a token
--   request and the client that it names. Policy: `resolveTokenRequestPolicyClientContext` and
--   `resolveAuthzPolicyDpopMode`. Assertion: `verifyPrivateKeyJwtClientAuthentication`. TokenPolicy:
--   `resolveTokenRequestClientPolicy`. AccessToken: `createAccessToken`, with
--   `providers/access-token.provider.ts`. Endpoint: `verifyAccessTokenPayload`,
--   `verifyDpopBoundAccessToken` and `authorizeCredentialEndpointAccess`.
--   Registration: `createAuthzServerMetadata` and `createDpopNonceChallenge`. DpopProof: `verifyProof`
--   of `providers/dpop-proof.provider.ts`.
--   Issuer: `issuer.flows.ts`. Metadata: `findIssuerMetadata`, `findJwtVcIssuerMetadata` and
--   `createIssuerMetadata`. TransactionCode: `providers/transaction-code.provider.ts`. Offer:
--   `offerCredential`, with `providers/credential-offer.provider.ts`. Issue: `issueCredential` and the
--   nonces of the credential endpoint; its proofs are in Proof, and `isUri` in Uri. ProofJwt:
--   `verifyProof` of `providers/credential-proof-jwt.provider.ts`, with the key that a proof names in
--   ProofKey.
--   Verifier: `verifier.flows.ts`. Request: `createAuthzRequest`. RequestObjects: `findRequestObject`.
--   Present: `verifyPresentations`, `getTransaction` and `deleteTransaction`. Query: which
--   presentations a DCQL query asks for. Register: `createVerifierMetadata`, over the key stores in
--   Keys. State: its stores.
--   Providers: `selectProvider` of `providers/provider.utils.ts`. Pem: the texts of certificates and
--   keys. Certificate: `providers/certificate.provider.ts`. Imports: what is taken from the runtime.
--   Server: the routes. DirectPost: `utils/direct-post-vp-aud-transaction-store.ts`. Request, Callback
--   and Presentations: `routes/verify.ts`. Token: the route for tokens of `routes/authz.ts`.
--   Credentials: `routes/issue.ts`. Challenge: `utils/www-authenticate.ts` and the nonce challenges.
--   ErrorHandler: `utils/error-handler.ts`. A route gives a status and a body; the flow's state and
--   the states of presentation transactions are its state.
--   Flow: the operations on a state, with
--   exceptions.
--   Common: tests, text, numbers, JSON and maps. Tests: the theorems at concrete inputs.
--
-- A flow is an action on one state, which has the stores as fields (Authz.State, which the issuer
-- shares, and Verifier.State); an exception keeps what was written before it. A flow runs without
-- another in between. What other requests do between two flows is in the theorems that quantify
-- over lists of calls of a store. Each reading of the clock has a number, and the clock is any
-- function of it.
--
-- Where two flows use one nonce at the same time, their calls of the store alternate as steps of a
-- relation (Store.Nonce.Race).
--
-- Third-party code is a parameter (Authz.Jose): `importJWK`, `jwtVerify`, signing, the decoding of
-- a header or a part of a JWT, the hash of a token and of a key, and URLs. So are the providers
-- that a flow takes from its registry: of proofs, credentials, presentations, request objects and
-- queries. Generated codes, nonces, identifiers and keys are arguments, with the order in which
-- keys are ready; a transaction code takes a function for `randomInt`.
--
-- Bounds: a moment and a lifetime in milliseconds are natural numbers. Numbers of a `tx_code` and
-- of a `ttlSec` are those of JavaScript, as far as the code looks at them; numbers in JSON are
-- whole. A text is a list of code points, and lower case maps only the letters whose lower case is
-- an ASCII letter, which is what the tests against ASCII texts read; upper case maps ASCII
-- letters. The keys of an object are its own members. The length of a transaction code is a
-- natural number. The decimal digits of a safe integer are computed with fuel 16, as there are at
-- most 16 of them. Messages that name values are shortened, and logs are left out.
--
-- Not modelled: the providers of credentials, presentations, DIDs and DCQL queries, the checks of
-- the zod schemas but those named above, the offer and well-known routes and the wiring of the
-- server, the stores on cloud services, and the wallet.
pub mod Common
pub mod Errors
pub mod Flow
pub mod Store
pub mod Headers
pub mod Authz
pub mod Issuer
pub mod Providers
pub mod Verifier
pub mod Server
mod Tests
