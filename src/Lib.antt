-- ===== src/Lib.antt =====
-- jwtmint: the minting, verification, refresh and revocation of JSON Web Tokens.
--
-- The program is a set of Go packages around golang-jwt. A signer (signing) fills in the claims of a
-- token and signs it. A verifier (verification) parses a text with one key or with the key that the
-- token's kid header names, and then runs its checks; a revoker (revocation) is one of them. A refresher
-- (refresh) parses a token, asks a resolver for its claims and signs it again with new times. All of them
-- read and write claims through one package (claims), take their key functions from another (keys) and
-- fail with the sentinels of a third (pkgerr). An admission policy (k8s/admission) decides which requests
-- for a token a Kubernetes user may make. A remote key set (jwks) is fetched and cached.
--
-- Around these stand the ways in. The middleware (middleware) puts a verifier before HTTP handlers and gRPC
-- methods. The server (httpserver) builds a signer, a verifier, a refresher and a key set from one
-- configuration and serves them; an authenticator guards the endpoints that make tokens. In Kubernetes
-- (k8s), a webhook asks the admission policy, a second one lets the API server verify tokens, and a
-- controller mints the token of a JWTRequest, keeps it in a Secret, and mints it again when it is due.
--
-- Which file models what:
--   Errors             pkgerr/pkgerr.go, claims/errors.go: the sentinels, and errors as lists of them
--   Dict               Go's maps with string keys
--   Text, Time         what the code uses of Go's strings and time packages
--   Claims.Value       the types of claim values that the type switches tell apart
--   Claims.Copy        claims/claims.go: DeepCopy, ShallowCopy, ToMapClaims
--   Claims.Keys        claims/keys.go, RegisteredClaims, IsRegisteredClaim
--   Claims.Timestamp   claims/time.go
--   Claims.Read        readString, readTime and readStringSlice
--   Claims.Registered  claims/registered.go
--   Claims.Profile     claims/profile.go
--   Claims.Matching    normalizeString and the Matching functions of both files
--   Claims.Checks      claims/check_func.go
--   Token              the types of golang-jwt and of Go's crypto packages
--   Keys               keys/keys.go, and the validation of keys/ecdsa.go, rsa.go and ed25519.go
--   Revocation         revocation/memory.go and revocation/revoker.go; Revocation.History has the sequences
--                      of calls and what they say of a key
--   Verification.Base, Options, Single
--                      verification/verification.go and verification/opt.go
--   Verification.MultiKey, Checks, Middleware
--                      verification/multikey.go, check_func.go and middleware.go
--   Signing.Method     signing/method.go
--   Signing.Mint       signWith of signing/signing.go
--   Signing.Signer     the rest of signing/signing.go, signing/opt.go, signing/context.go
--   Refresh            refresh/refresh.go
--   Admission          k8s/admission/policy.go; Admission.Webhook has k8s/admission/webhook.go
--   Jwks.Codec         jwks/jwk.go
--   Jwks.KeySet        jwks/keyset.go
--   Jwks.Remote        the cache of jwks/remote.go
--   Auth.Bearer, Checked
--                      what the two packages of middleware share; Auth.Admitted says what a handler behind
--                      them may rely on
--   Auth.HttpAuth      middleware/httpauth/httpauth.go
--   Auth.GrpcAuth      middleware/grpcauth/grpcauth.go
--   Auth.Client        middleware/httpauth/client.go and middleware/grpcauth/client.go
--   Server.Reply       httpserver/types.go and httpserver/errors.go
--   Server.Callers     httpserver/auth.go
--   Server.ServiceAccounts
--                      httpserver/k8sauth/k8sauth.go
--   Server.Handlers    httpserver/handler_sign.go, handler_verify.go, handler_refresh.go, handler_discovery.go
--   Server.Build       the configuration of httpserver/server.go, and httpserver/build.go
--   Server.Start       New and the routes of httpserver/server.go
--   TokenReview        k8s/tokenreview/tokenreview.go; TokenReview.Users has the mapping to a user,
--                      TokenReview.Sharing the slice of checks that concurrent requests share
--   Controller.Request the types of k8s/api/v1alpha1/types.go
--   Controller.Conditions, Schedule, Minting, Reconcile
--                      k8s/controller/reconciler.go
--   Examples           concrete inputs, and the theorems at them
-- The children called Laws, History, Cases, Made, Headers, Total, Inversion, Verifying, Issuing,
-- Publishing, Panics, Converges, Asked and Entries have the theorems, the others the code; Sharing and
-- ServiceAccounts have both, as does Admission.Webhook.
--
-- How state and effects are modelled. A function that writes a map or a struct returns the new one; an
-- error is the list of the sentinels that it wraps, without its text. A nil pointer, function, slice or map
-- is `none` or empty as the code treats it. A function option is a constructor and a function that applies
-- it. The denylist's mutex makes each of its operations one step. A loop over a list is structural
-- recursion, so nothing runs on fuel. Time is a whole number of nanoseconds without bounds; only the
-- difference of two times saturates, as in Go, and the controller's durations wrap around at 64 bits. What
-- panics in Go is `none` in the middleware, the server and the webhooks. A call to the API server comes
-- with the error that it gives, if any. Go does not fix the order in which it ranges over a map; the
-- model ranges in list order, and the theorems speak of lookups.
--
-- What is a parameter. Host has floating-point numbers, the conversions of the standard library and
-- the precision of dates; World has the clock's reading, a fresh UUID and the making and signing of a
-- token; Crypto has the signature primitives; the parser of golang-jwt is a function. What golang-jwt
-- documents of its parser is a hypothesis, ParserLaws or MapParserLaws. Encoding has base64, big.Int
-- and the encoding of points, Clock and Libraries the libraries of the server, and what the JSON
-- decoder makes of a body is an argument.
--
-- What is not modelled: the options and the parsing of Cache-Control in jwks/remote.go, the listener,
-- health, metrics, logs and fixed headers of httpserver, NewInCluster of httpserver/k8sauth, the
-- registration of the controller and the owner of its Secrets, and cmd, which is built on the packages
-- above; generation, PEM and files in keys; texts of errors. Keys and methods are whole where their
-- pointers are not nil: a nil modulus, curve or method pointer, and a point that is too short, are not
-- modelled.
pub mod Prelude
pub mod Dict
pub mod Errors
pub mod Text
pub mod Time
pub mod Claims
pub mod Token
pub mod Keys
pub mod Revocation
pub mod Verification
pub mod Signing
pub mod Refresh
pub mod Admission
pub mod Jwks
pub mod Auth
pub mod Server
pub mod TokenReview
pub mod Controller
pub mod Examples
