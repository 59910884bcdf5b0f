-- ===== src/Lib.antt =====
-- authbyte, the sign-in and token authority: from an authorization request to the session and the
-- code that the sign-in ends with, and from the code to the tokens and their end.
--
-- The parts, and the files that model them:
--
-- Registry (registry/registry.go). Registry.Rows holds the rows, Registry.Scopes the texts of
-- scopes, Registry.Validate the checks of each section (validateClient, validateSignInClient,
-- validateAIApp and the checks of addresses), Registry.Load the function Load after the YAML
-- decoder, Registry.Secrets the comparison subtleMismatch, Registry.Grants the questions about
-- service clients and Registry.SignIn those about sign-in clients. A Go map is an association list
-- (Prelude.Maps), and a fallible call is a Result or an Option of its refusal.
--
-- Session and Store (session/). Session.Types and Session.Shared hold the records of session.go and
-- shared.go. Session.Cache is the interface of the shared cache, a third-party service, with the
-- documented laws of its commands; Store.Calls and Store.Index are the methods of Store in store.go
-- over it. A time is the number of milliseconds since the zero time, so 0 is the zero time.
--
-- Register and Rolebyte (rolebyte/rolebyte.go). The membership register is another service, a
-- parameter with a state of its own; Rolebyte is the adapter that asks it and checks its answers.
--
-- Issuer and Claims (issuer/issuer.go). What each kind of token states. A token is its claims.
--
-- Identity and Text (identity/). Identity.Methods is the login methods and the signing flows that each
-- permits, Identity.Resolver how a provider's words for an authentication become a method and a
-- level, and Identity.Catalog the selection of signing identities in catalog.go. Text has the text
-- functions that the policies use, with Text.Order their order by length.
--
-- Upstream and SignIn. Upstream is the set of providers (upstream/set.go) with what upstream.go says of
-- a provider's settings; its HTTP calls are fields of the provider. SignIn gathers what a sign-in takes
-- from outside: the providers, the card's engine, the identity store and the page's languages.
--
-- Browser (routes/cookies.go, params.go). A Visit is a request as a browser sends it, a Reply the answer
-- it gets, and a Screen an action that may end early with one. Cookies are the visit's, and what the
-- answer sets stands in the world's jar.
--
-- Sign-in (routes/authorize.go, signin.go, oidc.go, shared.go, aiapp.go, webeid.go). Routes.Asking is
-- what a request asks, Routes.Authorize reads and checks it, and Routes.Authorize.Endpoint is
-- `authorize`, `choose` and the start at a provider or of the card. Routes.Shared.Browser answers from
-- the browser's shared session, to which Routes.Shared.Joining joins a sign-in. The predicates that
-- say what a way on offer is stand in Routes.Authorize.Offered, what such an answer leaves in the
-- store in Routes.Shared.Answering, and how a client shows who it is in Routes.ClientAuth.Came.
-- Routes.Callback makes and keeps the session of a completed sign-in; Routes.Callback.Answered is
-- `callback`, Routes.Callback.Card `cardAnswer` and Routes.Callback.Chosen `chooseAssistant`.
-- Routes.Logout is the sign-out of logout.go.
--
-- Tokens (routes/). Routes.Membership is userScopes of token.go. Routes.Token.Endpoint is the token
-- endpoint, with the person's grants in Routes.Token.Person, the service's in Routes.Token.Service
-- and the exchange in Routes.Token.Exchange; Routes.ClientAuth, Routes.Pkce and Routes.Dpop are
-- clientauth.go, verifyPKCE of helpers.go, and dpop.go with session/replay.go. Routes.Revoke is
-- revoke of refresh.go, Routes.Shared the ends of app sessions in shared.go, and Routes.App with
-- Routes.Connection the AI app's part of aiapp.go.
--
-- A handler is an action (Act) on the World: the cache's instances, the register's state, the clock,
-- the random values drawn and the audit trail. It answers a refusal or a value, with the state that
-- it leaves beside either. Act.Runs reads how an action ran from its answer; Act.Leaves builds what
-- it leaves of the state, for any relation that chains. Each call of the cache takes the next entry
-- of the world's outages, which says whether it goes unanswered, so the theorems hold for outages at
-- any call. A handler runs to its end without another in between, and the clock stands still while
-- it runs; what holds between two requests is stated from any later world. Every loop is structural
-- recursion on a list or a text, so there is no fuel.
--
-- Taken from outside: the cache, the register, the identity store, the card's engine, the providers'
-- HTTP calls with the check of their id_tokens, the spelling of identity codes (`canonical`), the
-- lower case of a character, the choice of a page's language, the writing of a query, url.Parse with
-- the comparison of host names, the form and header reading of the web framework (Routes.Request,
-- Browser.Visit), dpop.Verify and the server's nonces, the hash of secrets, refresh tokens and
-- verifiers, the random values, the signing of claims, and the parse of a subject token. Only the
-- cache has laws, and Tests.Memory fills them.
--
-- Not modelled: the rendering of pages and their texts, the HTTP clients of providers and the mapping of
-- their claims, the persons and connections endpoints, the start of the service with its
-- configuration, key management, the database and the audit trail's delivery; response headers, the
-- attributes of cookies, the writing of redirect addresses, logs, and the texts of error messages; the
-- issue and expiry times and the id of a token.
pub mod Prelude
pub mod Registry
pub mod Act
pub mod Session
pub mod Claims
pub mod Register
pub mod World
pub mod Store
pub mod Rolebyte
pub mod Issuer
pub mod Routes
pub mod Tests
pub mod Text
pub mod Identity
pub mod Upstream
pub mod SignIn
pub mod Browser
