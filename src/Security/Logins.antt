-- ===== src/Security/Logins.antt =====
-- After a change of the password the other logins are gone, and the API keys stay.
use klappstuhl_me.Prelude.{
  ℕ, ◌≡◌, refl, ap, ◌∙◌, Bool, true, false, not, Option, none, some, ==_iff, Bool-cases, inl, inr,
  keep_if,
}
use klappstuhl_me.Text.{Text, Bytes, text_eq}
use klappstuhl_me.Account.{Account}
use klappstuhl_me.Scope.{Session}
use klappstuhl_me.Sessions.{
  account_row, session_row, has_session_id, is_login_of, invalidate_account_sessions,
  invalidate_account_cache, invalidate_where, save_session, is_session_valid, insert_unless,
}
use klappstuhl_me.Sessions.Coherence.{find_sound, find-keep_if}
use klappstuhl_me.Sessions.Absence.{doomed-keep_if, Absent-save_session}
use klappstuhl_me.Sessions.Revocation.{no_answer}
use klappstuhl_me.Site.{Site, Request, AppState, on_store, saved, login_session}
use klappstuhl_me.Login.Coherence.{CachesAgree, logins_revoked-CachesAgree, saved-CachesAgree}
use klappstuhl_me.Security.{ChangePasswordForm, password_changed, change_password}
use klappstuhl_me.Security.Coherence.{changed-CachesAgree}
use klappstuhl_me.Security.Passwords.{rehashed, change_password-Changed}

module _ (site : Site) where
  -- The store after a changed password, with the statement that revokes answered.
  abbrev revoked : Request → Account → Text → AppState site → AppState site
  revoked req acc hash st =
      on_store site
        (invalidate_account_sessions site.sessions site.users site.max_token_age (req.up 2) acc.id)
        (rehashed site acc hash st)

  revoked_rows :
      (req : Request) (acc : Account) (hash : Text) (st : AppState site)
      → req.up 2 ≡ true
      → (revoked req acc hash st).store.rows
        ≡ keep_if (λ s. not (is_login_of acc.id s)) st.store.rows
  unfolding invalidate_account_sessions invalidate_where invalidate_account_cache
  revoked_rows req acc hash st up = rw up refl

  unrevoked :
      (req : Request) (acc : Account) (hash : Text) (st : AppState site)
      → req.up 2 ≡ false
      → (revoked req acc hash st).store.rows ≡ st.store.rows
  unfolding invalidate_account_sessions invalidate_where invalidate_account_cache
  unrevoked req acc hash st down = rw down refl

  revoked-CachesAgree :
      (req : Request) (acc : Account) (hash : Text) (st : AppState site)
      → CachesAgree site st
      → CachesAgree site (revoked req acc hash st)
  revoked-CachesAgree req acc hash st c =
      logins_revoked-CachesAgree site (req.up 2) acc.id (rehashed site acc hash st)
        (changed-CachesAgree site acc.id (λ a. record a { password = hash }) st (λ a. refl) c)

  -- After a change of the password whose statements are answered, from caches that agree with the
  -- tables, no other login of the account is valid, at any later time.
  pub change_password-revokes :
      (req : Request) (salt : Bytes) (id : ℕ) (form : ChangePasswordForm) (st out : AppState site)
      (token : Text) (other : Text) (row : Session) (up : Bool) (later : ℕ)
      → CachesAgree site st
      → change_password site req salt id form st ≡ (out, password_changed token)
      → req.up 2 ≡ true
      → session_row other st.store.rows ≡ some row
      → is_login_of id row ≡ true
      → text_eq token other ≡ false
      → (is_session_valid site.sessions site.users site.max_token_age up later other out.store).1
        ≡ none
  change_password-revokes req salt id form st out token other row up later c h answered found mine
        differs =
      let done = change_password-Changed site req salt id form st out token h in
      let same : done.acc.id ≡ id =
        (==_iff done.acc.id id).0 (find_sound _ st.store.accounts done.acc done.owner) in
      let login : is_login_of done.acc.id row ≡ true = ap (λ n. is_login_of n row) same ∙ mine in
      let fresh = login_session req.now token done.acc.id form.session_description in
      let gone : session_row other (revoked req done.acc done.hash st).store.rows ≡ none =
        ap (session_row other) (revoked_rows req done.acc done.hash st answered)
        ∙ doomed-keep_if site.sessions site.users site.max_token_age other (is_login_of done.acc.id)
            st.store.rows row c.unique found login in
      ap (λ s. (is_session_valid site.sessions site.users site.max_token_age up later other s).1)
        done.result
      ∙ no_answer site.sessions site.users site.max_token_age other up later
          (saved site (req.up 3) fresh (revoked req done.acc done.hash st)).store
          (saved-CachesAgree site (req.up 3) fresh (revoked req done.acc done.hash st)
            (revoked-CachesAgree req done.acc done.hash st c))
          (Absent-save_session site.sessions site.users site.max_token_age other (req.up 3) fresh
            (revoked req done.acc done.hash st).store differs gone)

  saved_keeps :
      (up : Bool) (s : Session) (other : Text) (row : Session) (st : AppState site)
      → text_eq s.id other ≡ false
      → session_row other st.store.rows ≡ some row
      → session_row other (saved site up s st).store.rows ≡ some row
  unfolding save_session
  saved_keeps false s other row st differs h = h
  saved_keeps true s other row st differs h =
      from (session_row s.id st.store.rows) (account_row s.account_id st.store.accounts)
    where
      from :
          (taken : Option Session) (owner : Option Account)
          → session_row other
              (insert_unless site.sessions site.users site.max_token_age s st.store taken
                owner).rows
            ≡ some row
      from (some r) owner = h
      from none none = h
      from none (some a) = rw differs h

  -- An API key of the account, and any session of another account, is still a row after the password
  -- changed; the statement that revokes being answered or not.
  pub change_password-spares :
      (req : Request) (salt : Bytes) (id : ℕ) (form : ChangePasswordForm) (st out : AppState site)
      (token : Text) (other : Text) (row : Session)
      → change_password site req salt id form st ≡ (out, password_changed token)
      → session_row other st.store.rows ≡ some row
      → is_login_of id row ≡ false
      → text_eq token other ≡ false
      → session_row other out.store.rows ≡ some row
  change_password-spares req salt id form st out token other row h found theirs differs =
      let done = change_password-Changed site req salt id form st out token h in
      let same : done.acc.id ≡ id =
        (==_iff done.acc.id id).0 (find_sound _ st.store.accounts done.acc done.owner) in
      let kept : not (is_login_of done.acc.id row) ≡ true =
        ap (λ n. not (is_login_of n row)) same ∙ ap not theirs in
      ap (λ s. session_row other s.rows) done.result
      ∙ saved_keeps (req.up 3) (login_session req.now token done.acc.id form.session_description)
          other row (revoked req done.acc done.hash st) differs (still done.acc done.hash kept)
    where
      still :
          (acc : Account) (hash : Text)
          → not (is_login_of acc.id row) ≡ true
          → session_row other (revoked req acc hash st).store.rows ≡ some row
      still acc hash kept = elim (Bool-cases (req.up 2)) [
        | inl up ↦
            ap (session_row other) (revoked_rows req acc hash st up)
            ∙ find-keep_if (has_session_id other) _ st.store.rows row found kept
        | inr down ↦ ap (session_row other) (unrevoked req acc hash st down) ∙ found
      ]
