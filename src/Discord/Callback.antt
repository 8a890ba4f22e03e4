-- ===== src/Discord/Callback.antt =====
-- src/site/discord_oauth.rs up to the answer of Discord, and the DiscordConfig of src/core/config.rs:
-- the redirect to Discord, the signed state of the flow, and the callback. The signature and the two
-- requests to Discord are parameters.
use klappstuhl_me.Prelude.{
  ℕ, ◌+◌, Bool, false, not, ◌&&◌, Option, none, some, [], ◌++◌, if◌then◌else◌, ltb,
}
use klappstuhl_me.Text.{Text, codes, is_empty}
use klappstuhl_me.Redirect.{safe_next_for_domain, urlencode}
use klappstuhl_me.Site.{Site, Request}
use klappstuhl_me.Discord.{DiscordUser, Linked, Answer, link_discord, login_or_create}

pub record OauthState : Type 0 where
  pub account_id : Option ℕ
  pub next : Option Text
  pub exp : ℕ

pub record CallbackQuery : Type 0 where
  pub code : Option Text
  pub state : Option Text
  pub error : Option Text

pub record DiscordConfig : Type 0 where
  pub client_id : Option Text
  pub client_secret : Option Text
  pub redirect_uri : Option Text

abbrev is_filled : Option Text → Bool
is_filled none = false
is_filled (some t) = not (is_empty t)

unfoldable pub is_enabled : DiscordConfig → Bool
is_enabled cfg =
    is_filled cfg.client_id && is_filled cfg.client_secret && is_filled cfg.redirect_uri

-- What the two requests to Discord, for a token and for the user, come to.
pub data Exchange : Type 0 where
  not_connected : Exchange
  no_token : Exchange
  no_identity : Exchange
  identified : DiscordUser → Exchange

-- The configuration, `url_to("/auth/discord/callback")`, the signature, and the requests to Discord
-- for a code and an address to come back to.
pub record Flow : Type 0 where
  pub discord : DiscordConfig
  pub production : Bool
  pub callback_url : Text
  pub sign_state : OauthState → Option Text
  pub verify_state : Text → Option OauthState
  pub exchange : Text → Text → Exchange

pub data Denial : Type 0 where
  cancelled : Denial
  invalid_parameters : Denial
  invalid_state : Denial
  flow_expired : Denial
  not_configured : Denial
  not_completed : Denial
  not_reached : Denial
  not_fetched : Denial

pub data CallbackAnswer : Type 0 where
  denied : Denial → CallbackAnswer
  handled : Answer → CallbackAnswer

unfoldable pub discord_redirect_uri : Flow → Option Text
discord_redirect_uri f = if f.production then f.discord.redirect_uri else some f.callback_url

-- `unwrap` of a client id, which is there where the configuration is enabled.
abbrev pub unwrapped : Option Text → Text
unwrapped none = []
unwrapped (some t) = t

abbrev pub authorize_url : Text → Text → Text → Text
authorize_url client_id uri signed =
    codes "https://discord.com/api/oauth2/authorize?client_id="
    ++ client_id
    ++ codes "&redirect_uri="
    ++ urlencode uri
    ++ codes "&response_type=code&scope=identify&state="
    ++ signed

abbrev to_uri : Flow → Text → Option Text → Text
to_uri f signed none = codes "/login"
to_uri f signed (some uri) = authorize_url (unwrapped f.discord.client_id) uri signed

abbrev to_discord : Flow → Option Text → Text
to_discord f none = codes "/login"
to_discord f (some signed) = to_uri f signed (discord_redirect_uri f)

-- The state of a flow that starts at `now` lives for ten minutes.
abbrev pub new_state : Text → ℕ → Option ℕ → Option Text → OauthState
new_state trusted now account next = record {
  account_id = account;
  next = safe_next_for_domain next (some trusted);
  exp = now + 600;
}

-- The address a browser is sent to.
unfoldable pub discord_login : Flow → Text → ℕ → Option ℕ → Option Text → Text
unfolding is_enabled discord_redirect_uri safe_next_for_domain urlencode
discord_login f trusted now account next =
    if not (is_enabled f.discord)
    then codes "/login"
    else to_discord f (f.sign_state (new_state trusted now account next))

abbrev pub or_root : Option Text → Text
or_root none = codes "/"
or_root (some t) = t

abbrev pub target_of : Text → OauthState → Text
target_of trusted o = or_root (safe_next_for_domain o.next (some trusted))

module _ (site : Site) where
  -- The two random numbers are those of a name that is made up.
  abbrev pub dispatch :
      Request → ℕ → ℕ → DiscordUser → Option ℕ → Text → Linked site → Linked site × Answer
  dispatch req random suffix user none target st =
      login_or_create site req user target random suffix st
  dispatch req random suffix user (some id) target st = link_discord site req id user st

  abbrev pub handled_by : Linked site × Answer → Linked site × CallbackAnswer
  handled_by (st, a) = (st, handled a)

  abbrev pub with_exchange :
      Request → ℕ → ℕ → OauthState → Exchange → Linked site → Linked site × CallbackAnswer
  with_exchange req random suffix o not_connected st = (st, denied not_reached)
  with_exchange req random suffix o no_token st = (st, denied not_completed)
  with_exchange req random suffix o no_identity st = (st, denied not_fetched)
  with_exchange req random suffix o (identified user) st =
      handled_by (dispatch req random suffix user o.account_id (target_of site.trusted_domain o) st)

  abbrev pub with_uri :
      Flow
      → Request
      → ℕ
      → ℕ
      → Text
      → OauthState
      → Option Text
      → Linked site
      → Linked site × CallbackAnswer
  with_uri f req random suffix code o none st = (st, denied not_configured)
  with_uri f req random suffix code o (some uri) st =
      with_exchange req random suffix o (f.exchange code uri) st

  abbrev pub with_state :
      Flow → Request → ℕ → ℕ → Text → Option OauthState → Linked site → Linked site × CallbackAnswer
  with_state f req random suffix code none st = (st, denied invalid_state)
  with_state f req random suffix code (some o) st =
      if ltb o.exp req.now
      then (st, denied flow_expired)
      else if not (is_enabled f.discord)
      then (st, denied not_configured)
      else with_uri f req random suffix code o (discord_redirect_uri f) st

  abbrev pub with_parameters :
      Flow
      → Request
      → ℕ
      → ℕ
      → Option Text
      → Option Text
      → Linked site
      → Linked site × CallbackAnswer
  with_parameters f req random suffix none signed st = (st, denied invalid_parameters)
  with_parameters f req random suffix (some code) none st = (st, denied invalid_parameters)
  with_parameters f req random suffix (some code) (some signed) st =
      with_state f req random suffix code (f.verify_state signed) st

  abbrev pub unless_denied :
      Flow
      → Request
      → ℕ
      → ℕ
      → CallbackQuery
      → Option Text
      → Linked site
      → Linked site × CallbackAnswer
  unless_denied f req random suffix q (some error) st = (st, denied cancelled)
  unless_denied f req random suffix q none st =
      with_parameters f req random suffix q.code q.state st

  unfoldable pub discord_callback :
      Flow → Request → ℕ → ℕ → CallbackQuery → Linked site → Linked site × CallbackAnswer
  unfolding is_enabled discord_redirect_uri safe_next_for_domain link_discord login_or_create
  discord_callback f req random suffix q st = unless_denied f req random suffix q q.error st
