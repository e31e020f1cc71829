-- ===== src/Lib.antt =====
-- The licensing core of the backend: which credentials it sells, how they are paid for, how
-- long they live, on which sites they work, and which build of the editor they are served.
--
-- A licence is a row of the database and a signed token. The licence service
-- (src/licensing/license.service.ts) writes these rows: it checks the customer, the package,
-- the feature catalog and the domains, asks the duration policy (src/licensing/duration-
-- policy.ts) for the paid term and for a lifetime clamped to it, asks the signer
-- (src/licensing/license-signer.service.ts) for a token, and saves the row. The silent refresh
-- (src/portal/refresh.service.ts) rolls the token of a row inside its term, under a rate
-- limit. The domain policy (src/licensing/domain-policy.ts) normalises the domains that a
-- licence binds and later matches hosts against them. The version registry
-- (src/licensing/engine-version.service.ts) keeps the published builds and the default
-- pointers, and with the version resolution (src/licensing/version-resolution.ts) decides
-- which build a caller gets and which of its features. A paid key reaches a browser by a one-
-- time activation, and serves a capped number of browsers.
--
-- An order (src/billing/order.service.ts) is placed by a checkout with the price and the
-- features of the package as they are then. The payment comes back as an event of the webhook,
-- which a ledger of events guards: the order service compares what was paid with the order,
-- has the licence service mint a licence of the order, and arms an activation for the browser.
-- A session (src/delivery/session.service.ts) is what an editor asks for: a key that the
-- signer and the licence row accept, from an allowed origin and within the cap of browsers,
-- gets its features and its build; everyone else gets those of the default package
-- (src/licensing/default-package.service.ts). The bundle of a session is fetched by a signed
-- address and carries a watermark (src/delivery). Open editors wait on channels for a nudge to
-- ask again (src/delivery/entitlement-events.service.ts). Refreshes are logged, and a detector
-- flags the licences that look shared (src/portal/sharing-detector.service.ts). In the portal
-- a customer reads and regenerates its own keys (src/portal/portal-license.service.ts). The
-- admin panel has users and roles of its own (src/admin/rbac.service.ts), who log in with a
-- short access token and a refresh token that is rotated (src/auth/auth.service.ts); a change
-- of what a user may do revokes the tokens of that user.
--
-- - Base: Booleans, lists, texts (lists of UTF-16 code units), integers, results, a sort; Base.Keyed
--   tables of rows with an id.
-- - Domains: src/licensing/domain-policy.ts, function by function.
-- - Durations: src/licensing/duration-policy.ts and the constants of src/config/license.config.ts.
-- - Signer: src/licensing/license-signer.service.ts; Signer.Wire how a token is joined and taken apart,
--   Signer.Der its two signature encodings, Signer.Jwks the key set that it publishes. The other parts use a
--   token through Signer.Crypto, and Signer.Wire.IsWire says that a Crypto is the code of Signer.Wire.
-- - Resolution: src/licensing/version-resolution.ts.
-- - Activations: src/delivery/license-activation.service.ts; Activations.Single lets the reads and
--   the conditional updates of several claims interleave.
-- - Versions: src/licensing/engine-version.service.ts and src/licensing/canary.ts; Versions.Resolve
--   is what a caller is served.
-- - Refresh: src/portal/refresh.service.ts and src/portal/refresh-rate-limiter.ts.
-- - Installs: src/delivery/license-install.service.ts, the browsers that a licence serves.
-- - Licenses: the rows of src/licensing/entities as records, the tables as lists of rows, and the
--   operations of src/licensing/license.service.ts: Licenses.Issue (issue, issueFromSnapshot),
--   Licenses.Reissue (renew, revoke, dismissFlag, regenerate, regenerateWithDomains) and
--   Licenses.Delivery (setDelivery). Each takes the tables and returns them changed, or an error.
-- - Orders: the rows of src/billing/entities and prepareOrder, attachSession and the lists of
--   src/billing/order.service.ts; Orders.Fulfil is fulfillFromEvent, Orders.Keys the one-time reading
--   of a key, the mails and the rebinding of domains, Orders.Webhook the routes of
--   src/billing/billing.controller.ts and src/billing/order-admin.controller.ts that call them.
--   Orders.Single lets the readings of several browsers interleave with the conditional update.
-- - DefaultPackage: src/licensing/default-package.service.ts, with its cache and the load in flight.
-- - Sessions: src/delivery/session.service.ts, and Sessions.Open the routes of
--   src/delivery/session.controller.ts; they call Signer, Domains, Installs, Activations,
--   DefaultPackage and Versions.
-- - Portal: src/portal/portal-license.service.ts, a customer's own licences.
-- - Sharing: src/portal/sharing-detector.service.ts, the soft flag on a licence.
-- - Bundles: src/delivery/bundle-url-signer.ts and src/delivery/watermark.ts.
-- - Events: src/delivery/entitlement-events.service.ts; Events.Stream the route of
--   src/delivery/session.controller.ts that an open editor holds.
-- - Roles: src/admin/rbac.service.ts; Roles.Users its operations on users; Roles.Samples data for runs.
-- - Auth: src/auth/auth.service.ts with the routes and the guards that call it; Auth.Steps lets its
--   calls and those of Roles follow one another in any order.
--
-- Times are integers of seconds, a JavaScript number is an integer or Infinity. An HTTP error
-- is kept without its message. A transaction that throws leaves the tables as they were, so an
-- error carries no tables. Everything is structurally recursive: no fuel is used.
--
-- Node's JSON, base64, digests, HMAC and ECDSA, the hash of a password, the tokens of staff,
-- the parsing of an address, the client of Stripe, the sending of a mail, the clocks, the ids
-- that are drawn at random and the generated feature catalog are parameters (Signer.Wire.Node,
-- Licenses.Env, Orders.Webhook.Stripe). The database is a list of rows whose unique index on
-- the licence id refuses a write. Letter case and white space are those of ASCII. Not
-- modelled: the texts of mails, the storage of bundles, the editing of packages, the login of
-- customers, the controllers of the admin and portal screens, the AI proxy, migrations and the
-- parsing of the configuration, which are input and output or pass their input on.
pub mod Activations
pub mod Auth
pub mod Base
pub mod Bundles
pub mod DefaultPackage
pub mod Domains
pub mod Durations
pub mod Events
pub mod Installs
pub mod Licenses
pub mod Orders
pub mod Portal
pub mod Refresh
pub mod Resolution
pub mod Roles
pub mod Sessions
pub mod Sharing
pub mod Signer
pub mod Versions
