-- ===== src/Lib.antt =====
-- The control plane of the Saguaro gateway appliance, as far as this library models it.
--
-- The program is a web server (cmd/saguaro) that manages the appliance: accounts with roles,
-- browser sessions and API tokens decide who may call which handler, and the handlers change the
-- configuration of services through adapters (internal/adapters). The parts here are those that
-- guard the handlers, with the accounts and tokens that they rest on, the subnets of the DHCP
-- server, the configuration of the firewall, and the counting of repeated alerts.
--
-- - Limiter (cmd/saguaro/ratelimit.go): the lockout after failed logins. `check`, `fail`,
--   `success` and `prune` are the methods of the same names.
-- - Users (cmd/saguaro/users.go): `UserStore` is the interface `userStore`, `UserLaws` what the
--   rest relies on, and Users/File the store `fileUsers`, with the outcome of each write of the
--   file in the state. Users/Runs compares it with a function from names to accounts.
-- - Sessions (cmd/saguaro/sessions.go): the same for `sessionStore` and `fileSessions`.
-- - App: the part of `app` that requests change, the audit trail, and the fields of a request.
-- - Tokens (cmd/saguaro/apitokens.go): bearer tokens, with the handlers in Tokens/Requests.
-- - Auth (cmd/saguaro/main.go `auth`, cmd/saguaro/authz.go `authz`): who is let through.
-- - Accounts (cmd/saguaro/authz.go): the handlers of accounts.
-- - Login (cmd/saguaro/main.go): `login`, `logout` and the handlers of sessions. Login/Lockout is about
--   sequences of logins.
-- - Kea (internal/adapters/kea/subnets.go): the subnets of the DHCP configuration, which is
--   decoded JSON; Kea/Blocklist is blocklist.go beside it, Kea/Hosts the forms of addresses in
--   hosts.go, and Kea/Transaction is
--   `keaSubnetTxn` of cmd/saguaro/dhcp.go.
-- - Firewall (internal/adapters/nftgen/nftgen.go): the configuration of the firewall.
--   Firewall/Objects is `validateObjects`, Firewall/Reach is `Validate` and
--   `ManagementReachable`, and Firewall/Evaluate the tester `EvaluateForward`. `Generate` is split:
--   Firewall/Nft has the form of a line and the parts that functions of their own write,
--   Firewall/Chains the chain `input`, Firewall/Forward the chains `forward` and `mangle_pre`, and
--   Firewall/Generate the table of NAT and the whole text. A line is a list of conditions with a
--   verdict; what becomes of a packet is the verdict of the first line whose conditions all hold.
--   Error texts and reasons are left out.
-- - Gateway (cmd/saguaro/gateway.go, firewall_objects.go, deviceaccess.go): the handlers that change
--   the stored configuration of the firewall, one type of their requests in Gateway/Objects. Gateway/Block has
--   the handlers of cmd/saguaro/firewall_block.go that block an address and take the block back, and
--   Gateway/Apply those that load the generated rules.
-- - System (cmd/saguaro/systemprofile.go): the deployment mode, and sequences of requests for it and for
--   the firewall: the mode in System/Mode, the aliases that rules name in System/Resolved.
-- - Vpn (internal/adapters/wireguard/wireguard.go): the WireGuard VPN, with the addresses of its
--   peers in Vpn/Allocation. A function that may panic returns a `Result`. Vpn/Requests has the
--   handlers of cmd/saguaro/vpn.go, and Vpn/Invariant sequences of them.
-- - MultiWan (internal/adapters/multiwan/multiwan.go): the uplinks and the default route.
-- - Certs (cmd/saguaro/certs_expiry.go): the report on certificates that expire.
-- - Versions (cmd/saguaro/config_versions.go, and `state` and `saveLocked` of cmd/saguaro/main.go): the
--   snapshots of the configuration. Versions/Requests has the handlers, Versions/Directory the files,
--   Versions/Bound their number, Versions/Changes when a save makes one, Versions/Restore the way back.
-- - OpenVpn (internal/adapters/openvpn/openvpn.go): OpenVPN and the fixed addresses of its clients, with
--   the handlers of cmd/saguaro/openvpn.go in OpenVpn/Requests.
-- - Events (internal/events and cmd/saguaro-eventd/main.go): the structured events. Events/Partitions has
--   the monthly tables, with Go's arithmetic of dates, Events/Collector the severities and the parsers of
--   the journal and of Suricata's alerts, Events/Stream the channel and the batches; the others have
--   proofs.
-- - Mail (internal/mail/aggregate.go): the alerts that are counted in place of being sent.
-- - Prelude: shared tests, lists, maps, texts, signed integers, JSON, and Go's package net.
-- - Examples: the theorems at concrete values.
--
-- A handler is a function from the request, the state and the caller to the state that is left
-- and the HTTP status of the answer. One that Go writes as a chain of early returns is split
-- where it looks a value up, and the rest is a function by clauses over that value. Handlers run
-- one at a time here.
-- Times are nanoseconds as numbers, and the zero time is 0. The loop of `fail` runs on the number
-- of doublings that the failures ask for, at most one for each.
--
-- Parameters of the model are SHA-256, the Argon2id check of a password, the lower-casing of
-- Unicode text, random tokens and ids, the keys and certificates of the VPNs and their sealing, the
-- encoding of the state and of its sections (encoding/json), the clock, and the
-- answers of the DHCP server and of the root adapters. The stores
-- in PostgreSQL, the services that no part above is about, and all
-- rendering and plain input and output are not modelled.
pub mod Prelude
pub mod Limiter
pub mod Users
pub mod Sessions
pub mod App
pub mod Tokens
pub mod Auth
pub mod Accounts
pub mod Login
pub mod Kea
pub mod Firewall
pub mod Gateway
pub mod Mail
pub mod Vpn
pub mod MultiWan
pub mod Certs
pub mod Versions
pub mod OpenVpn
pub mod Events
pub mod System
pub mod Examples
