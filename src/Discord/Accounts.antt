-- ===== src/Discord/Accounts.antt =====
-- The accounts that a sign-in with Discord leaves: their names are valid.
use klappstuhl_me.Prelude.{ℕ, ◌≡◌, Bool, true, false, not, Option, none, some, All, if◌then◌else◌}
use klappstuhl_me.Text.{Text, codes}
use klappstuhl_me.Account.{Account, is_valid_username}
use klappstuhl_me.Scope.{Session}
use klappstuhl_me.Sessions.{save_session, insert_unless, invalidate_account_cache}
use klappstuhl_me.Site.{Site, Request, saved, forget_account, login_session, load_full_account}
use klappstuhl_me.Discord.{
  DiscordUser, DiscordLink, Linked, Insertion, created, name_in_use, link_in_use, unavailable,
  may_link, next_id, name_taken, sanitize_username, append_random_suffix, insert_account_and_link,
  create_session_response, after_retry, after_insertion, on_app, refreshed, sign_in, in_or_up,
  existing_link, login_or_create,
}
use klappstuhl_me.Discord.Names.{
  is_valid_username-sanitize_username, is_valid_username-append_random_suffix,
}

abbrev HasValidName : Account → Type 0
HasValidName a = is_valid_username a.name ≡ true

module _ (site : Site) where
  abbrev pub ValidNames : Linked site → Type 0
  ValidNames st = All HasValidName st.app.store.accounts

  either :
      {A : Type 0} (b : Bool) (r s : Linked site × A)
      → ValidNames r.0
      → ValidNames s.0
      → ValidNames (if b then r else s).0
  either true r s h k = h
  either false r s h k = k

  insert-ValidNames :
      (up : Bool) (name : Text) (user : DiscordUser) (st : Linked site)
      → is_valid_username name ≡ true
      → ValidNames st
      → ValidNames (insert_account_and_link site up name user st).0
  unfolding insert_account_and_link
  insert-ValidNames up name user st valid v = either (not up) _ _ v (
      either (name_taken name st.app.store.accounts) _ _ v
        (either (not (may_link (next_id st.app.store.accounts) user.id st.links)) _ _ v (valid, v)))

  session-ValidNames :
      (n : ℕ) (req : Request) (id : ℕ) (action target : Text) (token : Option Text)
      (st : Linked site)
      → ValidNames st
      → ValidNames (create_session_response site n req id action target token st).0
  unfolding save_session
  session-ValidNames n req id action target none st v = v
  session-ValidNames n req id action target (some token) st v = kept (req.up n)
    where
      unless :
          (o : Option Session) (a : Option Account)
          → All HasValidName
              (insert_unless site.sessions site.users site.max_token_age
                (login_session req.now token id (some (codes "Discord OAuth")))
                st.app.store
                o
                a).accounts
      unless (some taken) a = v
      unless none none = v
      unless none (some owner) = v

      kept :
          (up : Bool)
          → All HasValidName
              (saved site up
                (login_session req.now token id (some (codes "Discord OAuth")))
                st.app).store.accounts
      kept true = unless _ _
      kept false = v

  retry-ValidNames :
      (req : Request) (target : Text) (r : Linked site × Insertion)
      → ValidNames r.0
      → ValidNames (after_retry site req target r).0
  retry-ValidNames req target (st, created id) v =
      session-ValidNames 3 req id _ target req.token _ v
  retry-ValidNames req target (st, name_in_use) v = v
  retry-ValidNames req target (st, link_in_use) v = v
  retry-ValidNames req target (st, unavailable) v = v

  insertion-ValidNames :
      (req : Request) (user : DiscordUser) (target suffixed : Text) (r : Linked site × Insertion)
      → is_valid_username suffixed ≡ true
      → ValidNames r.0
      → ValidNames (after_insertion site req user target suffixed r).0
  insertion-ValidNames req user target suffixed (st, created id) valid v =
      session-ValidNames 3 req id _ target req.token _ v
  insertion-ValidNames req user target suffixed (st, name_in_use) valid v =
      retry-ValidNames req target _ (insert-ValidNames (req.up 2) suffixed user st valid v)
  insertion-ValidNames req user target suffixed (st, link_in_use) valid v = v
  insertion-ValidNames req user target suffixed (st, unavailable) valid v = v

  refreshed-ValidNames :
      (up : Bool) (user : DiscordUser) (id : ℕ) (st : Linked site)
      → ValidNames st
      → ValidNames (on_app site (forget_account site id) (refreshed site up user st))
  unfolding invalidate_account_cache
  refreshed-ValidNames true user id st v = v
  refreshed-ValidNames false user id st v = v

  sign_in-ValidNames :
      (req : Request) (user : DiscordUser) (target : Text) (o : Option Account) (st : Linked site)
      → ValidNames st
      → ValidNames (sign_in site req user target o st).0
  sign_in-ValidNames req user target none st v = v
  sign_in-ValidNames req user target (some acc) st v =
      session-ValidNames 3 req acc.id _ target req.token _
        (refreshed-ValidNames (req.up 2) user acc.id st v)

  -- Whatever Discord calls a user, whichever statements the database answers, and whether the name
  -- that is made up is free or another one with a suffix is tried: a sign-in or sign-up with
  -- Discord leaves every account with a valid name, where every account had one.
  pub login_or_create-ValidNames :
      (req : Request) (user : DiscordUser) (target : Text) (random suffix : ℕ) (st : Linked site)
      → ValidNames st
      → ValidNames (login_or_create site req user target random suffix st).0
  unfolding login_or_create
  login_or_create-ValidNames req user target random suffix st v =
      from (existing_link site (req.up 0) user.id st)
    where
      from :
          (o : Option DiscordLink) → ValidNames (in_or_up site req user target random suffix o st).0
      from none =
          let name = sanitize_username site.totp.to_lowercase random user.username in
          let valid =
            is_valid_username-sanitize_username site.totp.to_lowercase random user.username in
          insertion-ValidNames req user target (append_random_suffix suffix name)
            (insert_account_and_link site (req.up 1) name user st)
            (is_valid_username-append_random_suffix suffix name valid)
            (insert-ValidNames (req.up 1) name user st valid v)
      from (some l) =
          sign_in-ValidNames req user target (load_full_account site (req.up 1) l.account_id st.app)
            st v
