-- ===== src/Lib.antt =====
-- A model of the core of oauth4os, an OAuth 2.0 proxy in front of OpenSearch.
--
-- A client registers, gets tokens from the token manager, either directly or by one of the flows (the
-- authorization code with PKCE, a device code, a back channel, the exchange of a foreign token), and
-- sends its requests with a token. The proxy checks the token, its own or a JWT of a configured
-- provider, asks the filters of addresses, sessions and bindings, turns the scopes into backend roles,
-- asks the Cedar policies and a webhook for a decision, and forwards the request through a cache and a
-- circuit breaker. `Proxy.Gateway.serve` is that handler over the models of all its parts; the flows
-- call the token manager through callbacks, which are arguments or the manager itself.
--
-- Common      the names that all modules share; Common/Dict is Go's map[string]V with the laws of
--             each operation, Common/Text what the code uses of package strings.
-- Token       internal/token/manager.go. State: Manager, Token and Client, and the settings.
--             Clients: RegisterClient, AuthenticateClient, validateScopes, ValidateRedirectURI.
--             Grant: createTokenWithFamily, signJWT, handleClientCredentials. Refresh:
--             handleRefreshToken, revokeFamily, IssueToken. Revoke: RevokeToken, RevokeByClient,
--             RevokeRFC7009. Maintain: IsValid, TouchToken, BindDPoP, VerifyDPoP, Cleanup, Stats
--             and the listings. Store: the file of clients of internal/token/store.go, over a disk
--             whose system calls may fail. Trace has the calls as steps from a new manager; the other modules
--             hold the proofs, and Examples and StoreExamples run them at a small shop.
-- Cedar       internal/cedar/engine.go (Engine: Evaluate with matchesTarget, evalConditions,
--             resolveField and globMatch, AddPolicy, RemovePolicy) and internal/cedar/tenant.go
--             (Tenant); Parser has ParsePolicy. Decisions, Globs, Conditions, Termination and
--             Printing hold the proofs.
-- Pkce        internal/pkce/handler.go. Flow: Authorize, Consent, Exchange, Cleanup. Scopes:
--             splitScopes and split. Codes, Origin and Words hold the proofs.
-- Circuit     internal/circuit/breaker.go. Breaker has every method and the middleware, Histories
--             and Described the proofs.
-- Session     internal/session/manager.go. Manager has every method, Limits the proofs.
-- Scope       internal/scope/mapper.go with Role and Tenant of internal/config/config.go. Mapper has
--             every function, Roles the proofs.
-- RateLimit   internal/ratelimit/limiter.go. Limiter has the buckets, the limiter and the middleware,
--             Bounds the proofs. A float64 is read as the exact number, in units that keep it whole.
-- ApiKey      internal/apikey/store.go. Store has the methods, Lifecycle the proofs.
-- IpFilter    internal/ipfilter/filter.go. Filter has New and Check, over a record of the functions of
--             package net; Checks has the proofs.
-- LoadShed    internal/loadshed/shedder.go: the atomic operations as steps of an interleaving.
--
-- Jwt         internal/jwt/validator.go with Provider of internal/config/config.go. Keys: findKey and
--             its helpers. Validator: getJWKS, fallbackCache, resolveJWKSURI, resolveKey, Validate, over a
--             record of the JWT parser, JSON and the network. Fresh and Sound hold the proofs.
-- Proxy       cmd/proxy/main.go, the handler of "/". Request: what it reads, answers and keeps. Gateway:
--             the handler in the stages of the source. Stages, Checks, Claimed, Bindings and Keyed hold the
--             proofs.
-- Device      internal/device/handler.go. Handler has the calls over a store of shared objects; Facts,
--             History, Outcomes and Progress hold the proofs.
-- Ciba        internal/ciba/handler.go. Handler has the calls, History and Outcomes the proofs.
-- Par         internal/par/handler.go. Handler has the calls, Once the proofs.
-- Exchange    internal/exchange/handler.go, with the validator and the manager that cmd/proxy/main.go
--             gives it. Handler has the code, Granting the proofs.
-- Registration internal/registration/handler.go, with the token manager. Access has the proofs.
-- Introspect  internal/introspect/handler.go. Handler has the code, Stale the proofs.
-- Idempotency internal/idempotency/store.go. Store has the middleware, Replay the proofs.
-- Store       internal/store. Interface: Store and what its users rely on. Memory, File and MultiTenant
--             are its implementations, MultiTenant over a heap of stores behind pointers; Refinement and
--             Poison hold the proofs.
-- Cache       internal/cache/cache.go. Store has every method, Bounds the proofs.
-- Keyring     internal/keyring/keyring.go. Ring has the rotation, Window the proofs.
-- TokenBind   internal/tokenbind/binder.go; Dpop internal/dpop/dpop.go; Webhook
--             internal/webhook/authorizer.go; Mtls internal/mtls/mtls.go; Federation
--             internal/federation/router.go: the parts that the handler of the proxy calls.
--
-- How state is modelled: a struct with its maps is a record, a method is a function from the record
-- to the record with what it returns, and a loop is a recursion on the list that it ranges over. Only
-- the loop of ParsePolicy runs on fuel, the length of its text and one, since each turn leaves a
-- shorter text. A map is an association list; Go leaves the order of a range open, and the list gives
-- one. A map of pointers is written in place by `Dict.adjust`. What a method does between
-- Lock and Unlock is one step, and handleRefreshToken, which takes the lock twice, is one step as
-- well: a call that comes in between the two is not modelled. A poll of the device flow is two steps:
-- the lookup, and the deletes after its tokens are issued.
--
-- Times are natural numbers of nanoseconds since Go's zero time, durations are natural numbers of
-- nanoseconds, and a call reads the clock once. The clock and the random parts of names are
-- arguments (`Draw`), and so are SHA-256, the signing of tokens, and the callbacks. That a name that
-- was drawn is new is a hypothesis of the theorems that need it. Counters do not reach 2^63.
-- ConstantTimeCompare is equality. Replies are data with the status and the fields of the body. The
-- encoding in JSON is not modelled, nor are headers, but for those of the proxy's identities and of
-- stored responses.
--
-- Not modelled: HTML pages, the aliasing of slices that callers share with the Cedar engine, and the
-- parts of the proxy that are listed nowhere above: the wiring of routes and middleware in
-- cmd/proxy/main.go, the token endpoint's own rate limiter, userinfo, reading and checking the
-- configuration, and the administration API. Observability, test harnesses, the command line and the
-- client library only call these parts.
pub mod Common
pub mod ApiKey
pub mod Cache
pub mod Cedar
pub mod Ciba
pub mod Circuit
pub mod Device
pub mod Dpop
pub mod Exchange
pub mod Federation
pub mod Idempotency
pub mod Introspect
pub mod IpFilter
pub mod Jwt
pub mod Keyring
pub mod LoadShed
pub mod Mtls
pub mod Par
pub mod Pkce
pub mod Proxy
pub mod RateLimit
pub mod Registration
pub mod Scope
pub mod Session
pub mod Store
pub mod Token
pub mod TokenBind
pub mod Webhook
