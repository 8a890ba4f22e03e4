-- ===== src/Discord.antt =====
-- src/site/discord_oauth.rs from the answer of Discord on: linking, signing in or up, unlinking, and
-- the names that are made up. The exchange with Discord is network traffic; its result, a user, is an
-- argument. A link is a row, and the joined column of its account.
pub mod Accounts
pub mod Callback
pub mod Completion
pub mod Genuine
pub mod Names
use klappstuhl_me.Prelude.{
  ℕ, suc, ◌+◌, ◌-◌, ◌%◌, ◌^◌, max, Bool, true, false, not, ◌&&◌, ◌||◌, Option, none, some, List, [],
  ◌∷◌, ◌++◌, map, if◌then◌else◌, leb, ◌==◌, any, find, keep_if, take, length, replicate,
}
use klappstuhl_me.Text.{Text, codes, text_eq, byte_len}
use klappstuhl_me.Account.{Account, is_valid_username, no_password_sentinel}
use klappstuhl_me.Totp.{decimal, padded, format_code, is_ascii_digit}
use klappstuhl_me.Sessions.{account_row}
use klappstuhl_me.Site.{
  Site, Request, AppState, audited, forget_account, saved, login_session, load_full_account,
}
use klappstuhl_me.Security.{with_row, update_account}

pub record DiscordUser : Type 0 where
  pub id : Text
  pub username : Text
  pub avatar : Option Text

pub record DiscordLink : Type 0 where
  pub account_id : ℕ
  pub discord_user_id : Text
  pub discord_username : Text
  pub discord_avatar : Option Text

pub data Failure : Type 0 where
  already_linked : Failure
  link_failed : Failure
  account_missing : Failure
  create_failed : Failure
  token_unavailable : Failure
  not_linked : Failure

pub data Answer : Type 0 where
  refused : Failure → Answer
  linked : Answer
  unlinked : Answer
  signed_in : Text → Text → Answer

-- [a-z0-9._-].
abbrev is_kept_char : ℕ → Bool
is_kept_char c =
    (leb b'a' c && leb c b'z')
    || (is_ascii_digit c || ((c == b'.') || ((c == b'_') || (c == b'-'))))

abbrev pub stripped : Text → Text
stripped name = take 32 (keep_if is_kept_char name)

-- `{sanitized:_<3}`.
abbrev pub underscored : Text → Text
underscored s = s ++ replicate (3 - length s) b'_'

abbrev pub generated : ℕ → Text
generated random = let n = random % 100000000 in codes "user-" ++ decimal (suc n) n

abbrev pub pad_or_generate : ℕ → Text → Text
pad_or_generate random s = if is_valid_username s then take 32 s else generated random

-- The lowercase table of Unicode and the random number are arguments.
unfoldable pub sanitize_username : (Text → Text) → ℕ → Text → Text
unfolding is_valid_username decimal is_ascii_digit byte_len
sanitize_username to_lowercase random name =
    let sanitized = stripped (to_lowercase name) in
    if leb 3 (byte_len sanitized) && is_valid_username sanitized
    then sanitized
    else pad_or_generate random (underscored sanitized)

unfoldable pub append_random_suffix : ℕ → Text → Text
unfolding format_code
append_random_suffix random base = take 32 (base ++ b'-' ∷ format_code (random % 10000) 4)

abbrev pub is_link_of : Text → DiscordLink → Bool
is_link_of id l = text_eq l.discord_user_id id

-- `account_id` is the key and `discord_user_id` unique.
abbrev pub may_link : ℕ → Text → List DiscordLink → Bool
may_link account_id id links =
    not (any (λ (l : DiscordLink). l.account_id == account_id) links)
    && not (any (is_link_of id) links)

abbrev pub new_link : ℕ → DiscordUser → DiscordLink
new_link account_id user = record {
  account_id = account_id;
  discord_user_id = user.id;
  discord_username = user.username;
  discord_avatar = user.avatar;
}

-- The id that SQLite gives the next row of `account`.
abbrev pub greatest : List Account → ℕ
greatest [] = 0
greatest (a ∷ accounts) = max a.id (greatest accounts)

abbrev pub next_id : List Account → ℕ
next_id accounts = suc (greatest accounts)

abbrev pub discord_account : ℕ → Text → Text → Account
discord_account id name discord_id = record {
  id = id;
  name = name;
  password = no_password_sentinel;
  flags = 0;
  totp_secret = none;
  totp_enabled = false;
  discord_id = some discord_id;
}

abbrev pub name_taken : Text → List Account → Bool
name_taken name accounts = any (λ (a : Account). text_eq a.name name) accounts

pub data Insertion : Type 0 where
  created : ℕ → Insertion
  name_in_use : Insertion
  link_in_use : Insertion
  unavailable : Insertion

module _ (site : Site) where
  pub record Linked : Type 0 where
    pub app : AppState site
    pub links : List DiscordLink

  abbrev pub on_app : (AppState site → AppState site) → Linked → Linked
  on_app f st = record st { app = f st.app }

  abbrev with_link : DiscordLink → Linked → Linked
  with_link l st = record st { links = l ∷ st.links }

  unfoldable pub link_discord : Request → ℕ → DiscordUser → Linked → Linked × Answer
  unfolding text_eq
  link_discord req account_id user st =
      if not (req.up 0)
      then (st, refused link_failed)
      else if not (may_link account_id user.id st.links)
      then (st, refused already_linked)
      else if not (any (λ (a : Account). a.id == account_id) st.app.store.accounts)
      then (st, refused link_failed)
      else (
        on_app
            (λ app. audited site (codes "auth.discord.link") (
              forget_account site account_id
                (update_account site account_id (λ a. record a { discord_id = some user.id }) app)))
            (with_link (new_link account_id user) st),
        linked,
      )

  -- One transaction: the account, then its link. A constraint undoes both.
  unfoldable pub insert_account_and_link : Bool → Text → DiscordUser → Linked → Linked × Insertion
  unfolding text_eq
  insert_account_and_link up name user st =
      let id = next_id st.app.store.accounts in
      if not up
      then (st, unavailable)
      else if name_taken name st.app.store.accounts
      then (st, name_in_use)
      else if not (may_link id user.id st.links)
      then (st, link_in_use)
      else (
        with_link (new_link id user) (
            on_app
              (λ app. record app {
                store = record app.store {
                  accounts = discord_account id name user.id ∷ app.store.accounts;
                };
              })
              st),
        created id,
      )

  -- `n` is the statement that saves the session.
  abbrev pub create_session_response :
      ℕ → Request → ℕ → Text → Text → Option Text → Linked → Linked × Answer
  create_session_response n req id action target none st = (st, refused token_unavailable)
  create_session_response n req id action target (some token) st = (
    on_app
        (λ app. audited site action (
          saved site (req.up n) (login_session req.now token id (some (codes "Discord OAuth")))
            app))
        st,
    signed_in token target,
  )

  abbrev signed_up : ℕ → Request → Text → ℕ → Linked → Linked × Answer
  signed_up n req target id st =
      create_session_response n req id (codes "auth.discord.login") target req.token
        (on_app (audited site (codes "auth.discord.signup")) st)

  abbrev pub after_retry : Request → Text → Linked × Insertion → Linked × Answer
  after_retry req target (st, created id) = signed_up 3 req target id st
  after_retry req target (st, name_in_use) = (st, refused create_failed)
  after_retry req target (st, link_in_use) = (st, refused create_failed)
  after_retry req target (st, unavailable) = (st, refused create_failed)

  -- A name that is taken is tried once more with a suffix.
  abbrev pub after_insertion :
      Request → DiscordUser → Text → Text → Linked × Insertion → Linked × Answer
  after_insertion req user target suffixed (st, created id) = signed_up 3 req target id st
  after_insertion req user target suffixed (st, name_in_use) =
      after_retry req target (insert_account_and_link (req.up 2) suffixed user st)
  after_insertion req user target suffixed (st, link_in_use) = (st, refused already_linked)
  after_insertion req user target suffixed (st, unavailable) = (st, refused create_failed)

  abbrev pub refreshed : Bool → DiscordUser → Linked → Linked
  refreshed up user st =
      if up
      then record st {
        links =
            map
              (λ (l : DiscordLink).
                if is_link_of user.id l then record l { discord_avatar = user.avatar } else l)
              st.links;
      }
      else st

  abbrev pub sign_in : Request → DiscordUser → Text → Option Account → Linked → Linked × Answer
  sign_in req user target none st = (st, refused account_missing)
  sign_in req user target (some acc) st =
      create_session_response 3 req acc.id (codes "auth.discord.login") target req.token
        (on_app (forget_account site acc.id) (refreshed (req.up 2) user st))

  -- The random numbers are those of the name and of the suffix.
  abbrev sign_up : Request → DiscordUser → Text → ℕ → ℕ → Linked → Linked × Answer
  sign_up req user target random suffix st =
      let name = sanitize_username site.totp.to_lowercase random user.username in
      after_insertion req user target (append_random_suffix suffix name)
        (insert_account_and_link (req.up 1) name user st)

  abbrev pub existing_link : Bool → Text → Linked → Option DiscordLink
  existing_link up id st = if up then find (is_link_of id) st.links else none

  abbrev pub in_or_up :
      Request → DiscordUser → Text → ℕ → ℕ → Option DiscordLink → Linked → Linked × Answer
  in_or_up req user target random suffix none st = sign_up req user target random suffix st
  in_or_up req user target random suffix (some l) st =
      sign_in req user target (load_full_account site (req.up 1) l.account_id st.app) st

  unfoldable pub login_or_create : Request → DiscordUser → Text → ℕ → ℕ → Linked → Linked × Answer
  unfolding insert_account_and_link sanitize_username append_random_suffix
  login_or_create req user target random suffix st =
      in_or_up req user target random suffix (existing_link (req.up 0) user.id st) st

  unfoldable pub discord_unlink : Request → ℕ → Linked → Linked × Answer
  discord_unlink req account_id st =
      if req.up 0 && any (λ (l : DiscordLink). l.account_id == account_id) st.links
      then (
        on_app
            (λ app. audited site (codes "auth.discord.unlink") (
              forget_account site account_id
                (update_account site account_id (λ a. record a { discord_id = none }) app)))
            (record st {
              links = keep_if (λ (l : DiscordLink). not (l.account_id == account_id)) st.links;
            }),
        unlinked,
      )
      else (st, refused not_linked)
