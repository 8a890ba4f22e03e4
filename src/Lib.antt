-- ===== src/Lib.antt =====
-- A model of klappstuhl_me, a personal website with accounts, a pastebin, short links and an API,
-- with the theorems that make its parts correct.
--
-- The program is one process over a SQLite database. A request passes the rate limiter, a session
-- or an API key names its account, and a handler calls a service that reads and writes tables. Each
-- table is a list of records here; a statement is a function on it, with the constraints and the
-- cascades of sql/0.sql to 2.sql written out. What the surroundings supply (the clock, random ids, whether
-- the database answers) is an argument.
--
--   Prelude, Text, Cache   shared tests, lists and integers; the text operations of the standard
--                          library over code points; the bounded map of quick_cache, with its laws
--   RateLimit              src/platform/ratelimit.rs: emission_interval, process and call
--   Lockout                src/site/account/lockout.rs: register_failure and is_locked
--   Account                the account row of src/core/models.rs and is_valid_username
--   Username               src/site/account/username.rs: availability, cooldown_until, claim and
--                          change_username; signup_submit of src/site/account/auth.rs
--   Scope                  Session and Scope of src/core/models.rs, generate_api_key of
--                          src/site/account/api_keys.rs
--   Sessions               src/core/state.rs: the session table and the caches in front of it,
--                          is_session_valid, get_session_account, get_account, save_session and
--                          the four invalidations
--   Totp                   src/auth/totp.rs: one-time codes, stored secrets, recovery codes
--   Site                   what the account handlers share: their state and src/site/account/mod.rs
--   Login                  src/site/account/auth.rs: authenticate, login_totp_verify,
--                          consume_recovery_code, logout and logout_all
--   Security               src/site/account/security.rs: change_password and the handlers totp_*
--   Deletion               src/site/account/delete.rs: delete_account, purge_account and what the
--                          schema cascades to
--   Redirect               safe_next, safe_next_for_domain and urlencode of src/core/utils.rs
--   Links                  src/site/links.rs: validation, create, edit, delete, resolution
--   Paste.Row              Visibility, Paste and PasteRevision of src/core/models.rs
--   Paste.External         the libraries that the pastebin calls, as a record of functions
--   Paste.Crypto, Body     src/site/paste/crypto.rs and src/site/paste/mod.rs
--   Paste.Access, Validate, Store, Service
--                          src/site/paste/service.rs: who asks, the checks, the tables, and the
--                          operations create, fork, edit, delete, the reads, burn and the reaper
--   ApiToken               src/site/api/auth.rs: strip_scheme, extract_api_token_from_headers and
--                          require_account; src/site/account/sessions.rs
--   Discord                src/site/discord_oauth.rs: link_discord, login_or_create,
--                          discord_unlink, sanitize_username and append_random_suffix; in
--                          Callback discord_login and discord_callback, with the DiscordConfig
--                          of src/core/config.rs
--   Tests                  concrete values on which the theorems are applied
--
-- Paste.Service calls Validate, Access and Crypto, and changes the tables of Store; Body reads a
-- paste and the cookies that Crypto signs. RateLimit, Lockout and Sessions share the interface
-- Cache. Login, Security and Deletion change one state of Site: the sessions, the recovery codes,
-- the failures of the lockout and the audit trail; Deletion adds the pastes, links and images.
--
-- A call runs alone: handlers interleave between requests, not inside one. An operation that runs
-- several statements says by number which of them the database answers, so that a failure between
-- two of them is a case; one that runs a single statement or transaction has one flag.
--
-- Every loop is structural: the digits of a one-time code run on fuel, one more than the number
-- they write, which is enough (they read as that number again). The retries of insert_link run
-- along the list of codes it tries, at most six. Numbers of the source that are never negative are
-- natural numbers; a subtraction that the source saturates, or that stops at the epoch, stops at
-- zero. The u16 of the remaining requests and the u32 of the failures keep their largest values.
-- The f32 seconds of the rate limiter are whole ticks, exact where the rate divides the period.
--
-- Not modelled: pages, templates, images, the requests to Discord, logs and start-up, which are
-- I/O or calls of libraries; and the export of an account's data. Deletion leaves out the tables
-- user_discord_links, guild_api_key and username_change; the first is one of Discord's, the last one
-- of Username's.
pub mod Account
pub mod ApiToken
pub mod Cache
pub mod Deletion
pub mod Discord
pub mod Links
pub mod Lockout
pub mod Login
pub mod Paste
pub mod Prelude
pub mod RateLimit
pub mod Redirect
pub mod Scope
pub mod Security
pub mod Sessions
pub mod Site
pub mod Tests
pub mod Text
pub mod Totp
pub mod Username
