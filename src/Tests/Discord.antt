-- ===== src/Tests/Discord.antt =====
-- Examples on signing in with Discord.
use klappstuhl_me.Prelude.{ℕ, ◌≡◌, refl, true, Option, some, none, [], ◌∷◌, some_inj, arith, find}
use klappstuhl_me.Text.{Text, codes}
use klappstuhl_me.Sessions.{account_row, session_row}
use klappstuhl_me.Site.{login_session}
use klappstuhl_me.Discord.{
  DiscordUser, Linked, Answer, linked, signed_in, is_link_of, new_link, discord_account,
  login_or_create,
}
use klappstuhl_me.Discord.Accounts.{ValidNames, login_or_create-ValidNames}
use klappstuhl_me.Discord.Callback.{
  OauthState, CallbackQuery, Flow, identified, handled, authorize_url, discord_login,
  discord_callback,
}
use klappstuhl_me.Discord.Completion.{
  Signs, discord_callback_links, discord_callback_signs_in, discord_callback_signs_up,
}
use klappstuhl_me.Discord.Genuine.{Genuine, discord_callback-Genuine}
use klappstuhl_me.Tests.Site.{toy_site, quiet, request, dora}

abbrev ada : DiscordUser
ada = record { id = codes "99"; username = codes "ada"; avatar = none }

abbrev unlinked : Linked toy_site
unlinked = record { app = quiet; links = [] }

abbrev sign_flow : Option ℕ → Option Text → ℕ → Option Text
sign_flow none none exp = some (exp ∷ [])
sign_flow none (some t) exp = none
sign_flow (some id) none exp = some (id ∷ exp ∷ [])
sign_flow (some id) (some t) exp = none

abbrev read_flow : Text → Option OauthState
read_flow [] = none
read_flow (exp ∷ []) = some (record { account_id = none; next = none; exp = exp })
read_flow (id ∷ exp ∷ []) = some (record { account_id = some id; next = none; exp = exp })
read_flow (id ∷ exp ∷ c ∷ t) = none

abbrev flow : Flow
flow = record {
  discord = record {
    client_id = some (codes "1");
    client_secret = some (codes "2");
    redirect_uri = some (codes "https://example.org/auth/discord/callback");
  };
  production = true;
  callback_url = [];
  sign_state = λ o. sign_flow o.account_id o.next o.exp;
  verify_state = read_flow;
  exchange = λ code uri. identified ada;
}

flow_verify :
    (account : Option ℕ) (next : Option Text) (exp : ℕ) (signed : Text)
    → sign_flow account next exp ≡ some signed
    → read_flow signed ≡ some (record { account_id = account; next = next; exp = exp })
flow_verify none none exp signed h = rw (← some_inj h) refl
flow_verify none (some t) exp signed h = cc
flow_verify (some id) none exp signed h = rw (← some_inj h) refl
flow_verify (some id) (some t) exp signed h = cc

flow-Signs : Signs toy_site flow
flow-Signs o signed h = flow_verify o.account_id o.next o.exp signed h

abbrev came_back : CallbackQuery
came_back = record { code = some (codes "code"); state = some (700 ∷ []); error = none }

abbrev entered : Linked toy_site × Answer
entered = login_or_create toy_site request ada (codes "/") 7 8 unlinked

discord_callback-Genuine_example :
    Genuine toy_site flow request 7 8 came_back unlinked entered.0 entered.1
unfolding discord_callback
discord_callback-Genuine_example =
    discord_callback-Genuine toy_site flow request 7 8 came_back unlinked entered.0 entered.1 refl

login_or_create-ValidNames_example :
    ValidNames toy_site (login_or_create toy_site request ada (codes "/") 7 8 unlinked).0
unfolding klappstuhl_me.Account.is_valid_username
login_or_create-ValidNames_example =
    login_or_create-ValidNames toy_site request ada (codes "/") 7 8 unlinked (refl, (refl, tt))

abbrev callback_uri : Text
callback_uri = codes "https://example.org/auth/discord/callback"

-- Dora asks for a link.
discord_callback_links_example :
    (discord_login flow toy_site.trusted_domain 100 (some 3) none
      ≡ authorize_url (codes "1") callback_uri (3 ∷ 700 ∷ []))
    × (out : Linked toy_site) × (discord_callback toy_site flow request 7 8
          (record { code = some (codes "code"); state = some (3 ∷ 700 ∷ []); error = none })
          unlinked
        ≡ (out, handled linked))
    × (find (is_link_of (codes "99")) out.links ≡ some (new_link 3 ada))
unfolding klappstuhl_me.Discord.Callback.is_enabled
    klappstuhl_me.Discord.Callback.discord_redirect_uri klappstuhl_me.Redirect.safe_next_for_domain
discord_callback_links_example =
    discord_callback_links toy_site flow request 100 7 8 none (codes "code") (3 ∷ 700 ∷ [])
      callback_uri ada unlinked flow-Signs 3
      (record { configured = refl; back = refl; sign = refl; known = refl; early = omega arith })
      refl refl refl

abbrev linked_dora : Linked toy_site
linked_dora = record unlinked { links = new_link 3 ada ∷ [] }

discord_callback_signs_in_example :
    (discord_login flow toy_site.trusted_domain 100 none none
      ≡ authorize_url (codes "1") callback_uri (700 ∷ []))
    × (out : Linked toy_site) × (discord_callback toy_site flow request 7 8 came_back linked_dora
        ≡ (out, handled (signed_in (codes "tok") (codes "/"))))
    × (session_row (codes "tok") out.app.store.rows
        ≡ some (login_session 100 (codes "tok") 3 (some (codes "Discord OAuth"))))
unfolding klappstuhl_me.Discord.Callback.is_enabled
    klappstuhl_me.Discord.Callback.discord_redirect_uri klappstuhl_me.Redirect.safe_next_for_domain
    klappstuhl_me.Text.text_eq
discord_callback_signs_in_example =
    discord_callback_signs_in toy_site flow request 100 7 8 none (codes "code") (700 ∷ [])
      callback_uri ada linked_dora flow-Signs (new_link 3 ada) dora (codes "tok")
      (record { configured = refl; back = refl; sign = refl; known = refl; early = omega arith })
      (refl, refl, refl) refl refl refl refl refl

discord_callback_signs_up_example :
    (discord_login flow toy_site.trusted_domain 100 none none
      ≡ authorize_url (codes "1") callback_uri (700 ∷ []))
    × (out : Linked toy_site) × (discord_callback toy_site flow request 7 8 came_back unlinked
        ≡ (out, handled (signed_in (codes "tok") (codes "/"))))
    × (account_row 4 out.app.store.accounts ≡ some (discord_account 4 (codes "ada") (codes "99")))
    × (find (is_link_of (codes "99")) out.links ≡ some (new_link 4 ada))
    × (session_row (codes "tok") out.app.store.rows
        ≡ some (login_session 100 (codes "tok") 4 (some (codes "Discord OAuth"))))
unfolding klappstuhl_me.Discord.Callback.is_enabled
    klappstuhl_me.Discord.Callback.discord_redirect_uri klappstuhl_me.Redirect.safe_next_for_domain
    klappstuhl_me.Text.text_eq klappstuhl_me.Discord.sanitize_username
discord_callback_signs_up_example =
    discord_callback_signs_up toy_site flow request 100 7 8 none (codes "code") (700 ∷ [])
      callback_uri ada unlinked flow-Signs (codes "tok")
      (record { configured = refl; back = refl; sign = refl; known = refl; early = omega arith })
      (refl, refl, refl) refl refl refl refl refl
