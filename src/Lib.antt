-- ===== src/Lib.antt =====
-- turjmp, a bastion host: users get short-lived connection tokens for the accounts of their assets,
-- and proxies for SSH, databases and RDP take a token, ask the API to verify it, and relay the session.
-- This library models the core of the Go program and proves what it promises.
--
-- The parts, and the files that model them:
--   Domain            internal/domain: the records (models.go) and the errors; Result is Go's pair of
--                     a value and an error.
--   Store             internal/repository/store.go: Store is the tables as lists of rows, and each
--                     method is a function with the meaning of its SQL (Store/Rows, Permission, Tokens,
--                     Sessions, Refresh, Settings, Users, Grants, Assets). A method that writes returns
--                     the new store.
--   Tokens            internal/service/tokens.go: Issue, VerifyWithOptions and the checks they share.
--   Auth              internal/service/auth.go: Login, Refresh, Logout, and the second factor (Mfa).
--   Sessions          internal/service/sessions.go: the life of a session record.
--   Settings          internal/service/settings.go: settings with masked secrets.
--   Users             internal/service/users.go: users, their passwords and roles.
--   Permissions       internal/service/permissions.go: permissions and what they link to.
--   Assets            internal/service/assets.go: assets, and accounts with encrypted secrets.
--   HostKeys          internal/service/host_keys.go: the host keys that the proxy makes for itself.
--   Sdk               internal/service/sdk.go: the commands and files for native clients, over the parameter
--                     Urls, and the quoting of their words (Quote).
--   Rdp               internal/service/rdp_native.go and rdp_proxy_credentials.go: the user name that
--                     names a route (Route), the password of the RDP proxy (Credentials), the checks of
--                     a login (Native), and the session from its start to its end (Native/Session).
--   Reason            the reasons that a native RDP session ends for, of the same file.
--   Config            internal/config/config.go: the proxies' options and the names of environment
--                     variables.
--   Mysql             internal/proxy/db/mysql_protocol.go: packets, length-encoded numbers, the
--                     greeting and its response, the answers, result sets (Server/Results), the quoting
--                     of names; and mysql_server.go: a connection (Server/Connect) and its loop of
--                     commands (Server).
--   Postgres          internal/proxy/db/postgres_audit.go and postgres_protocol.go: the audit state
--                     machine and the registry of cancel requests.
--   Connection        the token forms of internal/proxy/db/types.go (ssh/token.go has the same code).
--   Limiter           the rest of internal/proxy/db/types.go: limit, ports and session record.
--   Ssh               internal/proxy/ssh/filter.go: the command filter of a terminal session.
--   Strings, Prelude  what the code uses of Go's strings, bytes and utf8, and shared lemmas.
--   Tests             a small installation, runs of the code, and the theorems at concrete data.
--
-- How they meet: a proxy finds the token in the login (Connection), verifies it (Tokens, over Store),
-- and relays; the MySQL proxy answers commands and audits them (Mysql/Server), the Postgres proxy feeds
-- both directions to the audit machine, the SSH proxy reads the client through the command filter, and
-- the native RDP proxy asks Rdp whether a login may connect. What a permission grants (Store/Permission)
-- decides both a token and a native RDP login.
--
-- Conventions. Texts are lists of code points, byte strings lists of bytes. The clock is a parameter:
-- an instant is a number of nanoseconds, and a function that reads the clock takes it. Ids are natural
-- numbers, as the database gives them. Parameters are Go's net, net/url, regexp.Compile and fmt, the target
-- database and the backend API that a proxy calls, the packages that host keys come from, and the thin layers that
-- internal/crypto and internal/auth put over a cipher, argon2id, TOTP and JWT. A store method answers; a
-- failing database is not modelled, only missing rows, violated uniqueness and violated foreign keys,
-- as the migrations declare them; the field like_ignores_case says whether LIKE is that of SQLite.
-- Letter case is mapped on ASCII letters only. Requests that run at the same
-- time interleave at the statements of the database, so their effect is a sequence of writes, which
-- the step relations of Store/Tokens/Once, Store/Refresh/Rotation and Store/Sessions/Limit describe.
--
-- Bounds and fuel: lengths of byte strings are below 2^63, as in Go. The recursive query of the
-- permissions runs at most once for each node of the table; each round finds a new node or ends.
-- The digits of a process id run on 10 rounds, which is enough for 32 bits. The loop of MySQL commands
-- runs on one round more than the client sends bytes; a command takes four bytes or more, so the input
-- ends first.
--
-- Not modelled: HTTP handlers, the web client, the RDP plugin in C, the recorder, the SSH and Postgres
-- servers and the relay to guacd, the listeners, and the start-up. Of the settings service the cache is
-- left out, which nothing reads; of a MySQL connection the watcher that closes it from outside.
pub mod Prelude
pub mod Strings
pub mod Mysql
pub mod Connection
pub mod Ssh
pub mod Domain
pub mod Store
pub mod Tokens
pub mod Postgres
pub mod Limiter
pub mod Auth
pub mod Tests
pub mod Sessions
pub mod Settings
pub mod Reason
pub mod Rdp
pub mod Config
pub mod Permissions
pub mod Users
pub mod Assets
pub mod HostKeys
pub mod Sdk
