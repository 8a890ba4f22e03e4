-- ===== src/Security/Passwords.antt =====
-- What a change of the password takes, and what it does.
use klappstuhl_me.Prelude.{
  ℕ, ◌≡◌, ◌≢◌, refl, sym, ap, ◌∙◌, true, false, not, ◌&&◌, Option, none, some, if◌then◌else◌, leb,
  true_of_not,
}
use klappstuhl_me.Text.{Text, Bytes, text_eq, byte_len}
use klappstuhl_me.Account.{Account, has_password}
use klappstuhl_me.Sessions.{account_row, invalidate_account_sessions}
use klappstuhl_me.Site.{
  passed, Site, Request, AppState, on_store, forget_account, saved, login_session,
}
use klappstuhl_me.Security.{
  ChangePasswordForm, Refusal, password_length, passwords_differ, database_error, invalid_password,
  Answer, refused, password_changed, update_account, replace_logins, write_password, with_owner,
  change_password,
}

module _ (site : Site) where
  abbrev Reply : Type 0
  Reply = AppState site × Answer

  refusal :
      (st out : AppState site) (e : Refusal) (token : Text)
      → ◌≢◌ {A = Reply} (st, refused e) (out, password_changed token)
  refusal st out e token h = cc (ap (λ (p : Reply). p.1) h)

  abbrev pub rehashed : Account → Text → AppState site → AppState site
  rehashed acc hash st =
      forget_account site acc.id (update_account site acc.id (λ a. record a { password = hash }) st)

  -- What a change of the password went through and did.
  pub record Changed (req : Request) (salt : Bytes) (id : ℕ) (form : ChangePasswordForm)
      (st out : AppState site) (token : Text) : Type 0 where
    pub acc : Account
    pub hash : Text
    pub owner : account_row id st.store.accounts ≡ some acc
    pub confirmed : text_eq form.new_password form.confirm_password ≡ true
    pub proved :
        (has_password acc && not (site.validate_password form.old_password acc.password)) ≡ false
    pub hashed : site.hash_password salt form.new_password ≡ some hash
    pub drawn : req.token ≡ some token
    pub result :
        out.store
        ≡ (saved site (req.up 3) (login_session req.now token acc.id form.session_description) (
            on_store site
              (invalidate_account_sessions site.sessions site.users site.max_token_age
                (req.up 2)
                acc.id)
              (rehashed acc hash st))).store

  -- A password changes only for the owner of the session, who confirms the new one and proves the old
  -- one, if there is one; the row gets the new hash, the logins are revoked and one is saved.
  pub change_password-Changed :
      (req : Request) (salt : Bytes) (id : ℕ) (form : ChangePasswordForm) (st out : AppState site)
      (token : Text)
      → change_password site req salt id form st ≡ (out, password_changed token)
      → Changed req salt id form st out token
  unfolding change_password
  change_password-Changed req salt id form st out token h =
      let last = with_owner site req salt form (account_row id st.store.accounts) st in
      let third = if not (req.up 0) then (st, refused database_error) else last in
      let second =
        if not (text_eq form.new_password form.confirm_password)
        then (st, refused passwords_differ)
        else third in
      let (_, h1) =
        passed (not (leb 8 (byte_len form.new_password) && leb (byte_len form.new_password) 128))
          (st, refused password_length) second (out, password_changed token)
          (refusal st out password_length token) h in
      let (confirmed, h2) =
        passed (not (text_eq form.new_password form.confirm_password))
          (st, refused passwords_differ) third (out, password_changed token)
          (refusal st out passwords_differ token) h1 in
      let (_, h3) =
        passed (not (req.up 0)) (st, refused database_error) last (out, password_changed token)
          (refusal st out database_error token) h2 in
      owned (account_row id st.store.accounts) refl (true_of_not _ confirmed) h3
    where
      replaced :
          (acc : Account) (hash : Text) (o : Option Text)
          → account_row id st.store.accounts ≡ some acc
          → text_eq form.new_password form.confirm_password ≡ true
          → (has_password acc && not (site.validate_password form.old_password acc.password))
            ≡ false
          → site.hash_password salt form.new_password ≡ some hash
          → req.token ≡ o
          → replace_logins site req acc form.session_description o
              (update_account site acc.id (λ a. record a { password = hash }) st)
            ≡ (out, password_changed token)
          → Changed req salt id form st out token
      replaced acc hash none e f p g d k = cc (ap (λ (r : Reply). r.1) k)
      replaced acc hash (some t) e f p g d k =
          let answers : password_changed t ≡ password_changed token = ap (λ (r : Reply). r.1) k in
          let same : t ≡ token = cc answers in
          record {
            acc = acc;
            hash = hash;
            owner = e;
            confirmed = f;
            proved = p;
            hashed = g;
            drawn = d ∙ ap some same;
            result =
                ap (λ (r : Reply). r.0.store) (sym k)
                ∙ ap
                    (λ u.
                      (saved site (req.up 3)
                        (login_session req.now u acc.id form.session_description)
                        (on_store site
                          (invalidate_account_sessions site.sessions site.users site.max_token_age
                            (req.up 2) acc.id)
                          (rehashed acc hash st))).store)
                    same;
          }

      written :
          (acc : Account) (o : Option Text)
          → account_row id st.store.accounts ≡ some acc
          → text_eq form.new_password form.confirm_password ≡ true
          → (has_password acc && not (site.validate_password form.old_password acc.password))
            ≡ false
          → site.hash_password salt form.new_password ≡ o
          → write_password site req form acc o st ≡ (out, password_changed token)
          → Changed req salt id form st out token
      written acc none e f p g k = absurd (refusal st out _ token k)
      written acc (some hash) e f p g k =
          let next =
            replace_logins site req acc form.session_description req.token
              (update_account site acc.id (λ a. record a { password = hash }) st) in
          let (_, later) =
            passed (not (req.up 1)) (st, refused database_error) next (out, password_changed token)
              (refusal st out database_error token) k in
          replaced acc hash req.token e f p g refl later

      owned :
          (o : Option Account)
          → account_row id st.store.accounts ≡ o
          → text_eq form.new_password form.confirm_password ≡ true
          → with_owner site req salt form o st ≡ (out, password_changed token)
          → Changed req salt id form st out token
      owned none e f k = absurd (refusal st out _ token k)
      owned (some acc) e f k =
          let next =
            write_password site req form acc (site.hash_password salt form.new_password) st in
          let (proved, later) =
            passed (has_password acc && not (site.validate_password form.old_password acc.password))
              (st, refused invalid_password) next (out, password_changed token)
              (refusal st out invalid_password token) k in
          written acc (site.hash_password salt form.new_password) e f proved refl later
