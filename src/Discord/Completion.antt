-- ===== src/Discord/Completion.antt =====
-- A sign-in with Discord from the first redirect to its callback.
use klappstuhl_me.Prelude.{
  ◌∙◌, any, find, ◌==◌, ==_refl, Bool-cases, inl, inr, false, not_later, ◌≡◌, refl, ℕ, ◌+◌, ◌≤◌,
  true, Option, none, some,
}
use klappstuhl_me.Text.{codes, Text}
use klappstuhl_me.Text.Trim.{trim_idem}
use klappstuhl_me.Redirect.{safe_next_for_domain}
use klappstuhl_me.Redirect.Laws.{safe_next_for_domain-IsSafe}
use klappstuhl_me.Text.Equality.{text_eq_refl}
use klappstuhl_me.Account.{Account}
use klappstuhl_me.Sessions.{session_row, account_row, save_session, invalidate_account_cache}
use klappstuhl_me.Site.{Site, Request, login_session}
use klappstuhl_me.Discord.{
  DiscordUser, DiscordLink, Linked, linked, signed_in, may_link, is_link_of, new_link, link_discord,
  login_or_create, sanitize_username, next_id, name_taken, discord_account, insert_account_and_link,
}
use klappstuhl_me.Discord.Callback.{
  OauthState, identified, Flow, is_enabled, discord_redirect_uri, unwrapped, authorize_url,
  new_state, CallbackAnswer, handled, discord_login, or_root, dispatch, handled_by,
  discord_callback,
}

-- A target that is let through is let through again.
safe_next_for_domain_idem :
    (next trusted : Option Text)
    → safe_next_for_domain (safe_next_for_domain next trusted) trusted
      ≡ safe_next_for_domain next trusted
unfolding safe_next_for_domain
safe_next_for_domain_idem next trusted = from next (safe_next_for_domain next trusted) refl
  where
    from :
        (next o : Option Text)
        → safe_next_for_domain next trusted ≡ o
        → safe_next_for_domain o trusted ≡ o
    from next none h = refl
    from none (some t) h = cc
    from (some n) (some t) h =
        let (m, is, same, safe) = safe_next_for_domain-IsSafe (some n) trusted t h in
        cc (trim_idem m, is, same, h)

module _ (site : Site) (f : Flow) where
  -- A state that was signed verifies to itself.
  abbrev pub Signs : Type 0
  Signs =
      (o : OauthState) (signed : Text)
      → f.sign_state o ≡ some signed
      → f.verify_state signed ≡ some o

  -- A browser that set out at `started` comes back within ten minutes with the state it was sent
  -- with, and with a code for which Discord names the user, where the sign-in is configured.
  pub record Returns (req : Request) (started : ℕ) (account : Option ℕ) (next : Option Text)
      (code signed uri : Text) (user : DiscordUser) : Type 0 where
    pub configured : is_enabled f.discord ≡ true
    pub back : discord_redirect_uri f ≡ some uri
    pub sign : f.sign_state (new_state site.trusted_domain started account next) ≡ some signed
    pub known : f.exchange code uri ≡ identified user
    pub early : req.now ≤ started + 600

  abbrev target_after : Option Text → Text
  target_after next = or_root (safe_next_for_domain next (some site.trusted_domain))

  module _ (req : Request) (started random suffix : ℕ) (next : Option Text) (code signed uri : Text)
      (user : DiscordUser) (st : Linked site) (law : Signs) where
    abbrev callback : Linked site × CallbackAnswer
    callback =
        discord_callback site f req random suffix
          (record { code = some code; state = some signed; error = none }) st

    discord_login_sent :
        (account : Option ℕ)
        → Returns req started account next code signed uri user
        → discord_login f site.trusted_domain started account next
          ≡ authorize_url (unwrapped f.discord.client_id) uri signed
    unfolding discord_login
    discord_login_sent account r = rw (r.configured, r.sign, r.back) refl

    callback_dispatched :
        (account : Option ℕ)
        → Returns req started account next code signed uri user
        → callback
          ≡ handled_by site (dispatch site req random suffix user account (target_after next) st)
    unfolding discord_callback
    callback_dispatched account r =
        rw
          (
            law _ signed r.sign,
            not_later (started + 600) req.now r.early,
            r.configured,
            r.back,
            r.known,
            safe_next_for_domain_idem next (some site.trusted_domain),
          )
          refl

    -- Where signed states verify to themselves, an account that asks for a link is sent to
    -- Discord; when it comes back within ten minutes, with the state it was sent with and a code
    -- for which Discord names a user, the database answers the INSERT, the account is still there,
    -- and neither it nor the Discord user has a link yet, it is told that they are linked, and the
    -- link is a row.
    pub discord_callback_links :
        (id : ℕ)
        → Returns req started (some id) next code signed uri user
        → req.up 0 ≡ true
        → may_link id user.id st.links ≡ true
        → any (λ (a : Account). a.id == id) st.app.store.accounts ≡ true
        → (discord_login f site.trusted_domain started (some id) next
            ≡ authorize_url (unwrapped f.discord.client_id) uri signed)
          × (out : Linked site) × (callback ≡ (out, handled linked))
          × (find (is_link_of user.id) out.links ≡ some (new_link id user))
    unfolding link_discord
    discord_callback_links id r up may there = (
      discord_login_sent (some id) r,
      (link_discord site req id user st).0,
      callback_dispatched (some id) r ∙ rw (up, may, there) refl,
      rw (up, may, there, text_eq_refl user.id) refl,
    )

    -- Where signed states verify to themselves, a browser without a session that asks for a
    -- sign-in is sent to Discord; when it comes back within ten minutes, with the state it was
    -- sent with and a code for which Discord names a user who is linked to an account, and the
    -- database answers, it is signed in with the token that was drawn, which no session has, goes
    -- on to the validated target or to the root, and the session is a row of the account.
    pub discord_callback_signs_in :
        (l : DiscordLink) (acc : Account) (token : Text)
        → Returns req started none next code signed uri user
        → (req.up 0 ≡ true) × (req.up 1 ≡ true) × (req.up 3 ≡ true)
        → find (is_link_of user.id) st.links ≡ some l
        → l.account_id ≡ acc.id
        → account_row acc.id st.app.store.accounts ≡ some acc
        → req.token ≡ some token
        → session_row token st.app.store.rows ≡ none
        → (discord_login f site.trusted_domain started none next
            ≡ authorize_url (unwrapped f.discord.client_id) uri signed)
          × (out : Linked site) × (callback ≡ (out, handled (signed_in token (target_after next))))
          × (session_row token out.app.store.rows
              ≡ some (login_session req.now token acc.id (some (codes "Discord OAuth"))))
    unfolding login_or_create save_session invalidate_account_cache
    discord_callback_signs_in l acc token r (up0, up1, up3) found owner listed drawn unused = (
      discord_login_sent none r,
      (login_or_create site req user (target_after next) random suffix st).0,
      callback_dispatched none r ∙ rw (up0, found, owner, up1, listed, drawn) refl,
      elim (Bool-cases (req.up 2)) [
        | inl refreshed ↦
            rw (up0, found, owner, up1, listed, drawn, refreshed, up3, unused, listed)
              (rw (text_eq_refl token) refl)
        | inr kept ↦
            rw (up0, found, owner, up1, listed, drawn, kept, up3, unused, listed)
              (rw (text_eq_refl token) refl)
      ],
    )

    abbrev made_up : Text
    made_up = sanitize_username site.totp.to_lowercase random user.username

    -- Where signed states verify to themselves, a browser without a session that asks for a
    -- sign-in is sent to Discord; when it comes back within ten minutes, with the state it was
    -- sent with and a code for which Discord names a user, the database answers, neither the user
    -- nor the id that comes next has a link, and no account has the name that is made up, it is
    -- signed in with the token that was drawn, which no session has, and goes on to the validated
    -- target or to the root; the new account, its link and its session are rows.
    pub discord_callback_signs_up :
        (token : Text)
        → Returns req started none next code signed uri user
        → (req.up 0 ≡ true) × (req.up 1 ≡ true) × (req.up 3 ≡ true)
        → find (is_link_of user.id) st.links ≡ none
        → may_link (next_id st.app.store.accounts) user.id st.links ≡ true
        → name_taken made_up st.app.store.accounts ≡ false
        → req.token ≡ some token
        → session_row token st.app.store.rows ≡ none
        → (discord_login f site.trusted_domain started none next
            ≡ authorize_url (unwrapped f.discord.client_id) uri signed)
          × (out : Linked site) × (callback ≡ (out, handled (signed_in token (target_after next))))
          × (account_row (next_id st.app.store.accounts) out.app.store.accounts
              ≡ some (discord_account (next_id st.app.store.accounts) made_up user.id))
          × (find (is_link_of user.id) out.links
              ≡ some (new_link (next_id st.app.store.accounts) user))
          × (session_row token out.app.store.rows
              ≡ some (
                  login_session req.now token
                    (next_id st.app.store.accounts)
                    (some (codes "Discord OAuth"))))
    unfolding login_or_create insert_account_and_link save_session
    discord_callback_signs_up token r (up0, up1, up3) unlinked may free drawn unused = (
      discord_login_sent none r,
      (login_or_create site req user (target_after next) random suffix st).0,
      callback_dispatched none r ∙ rw (up0, unlinked, up1, free, may, drawn) refl,
      rw (up0, unlinked, up1, free, may, drawn, up3, unused)
          (rw (==_refl (next_id st.app.store.accounts))
            (rw (==_refl (next_id st.app.store.accounts)) refl)),
      rw (up0, unlinked, up1, free, may, drawn) (rw (text_eq_refl user.id) refl),
      rw (up0, unlinked, up1, free, may, drawn, up3, unused)
          (rw (==_refl (next_id st.app.store.accounts), text_eq_refl token) refl),
    )
