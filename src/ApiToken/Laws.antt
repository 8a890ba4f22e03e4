-- ===== src/ApiToken/Laws.antt =====
-- What stands behind a request that an endpoint of the API lets through.
use klappstuhl_me.Prelude.{
  ℕ, ◌≡◌, refl, sym, ap, ◌∙◌, subst, Bool, true, false, Option, none, some, Bool-cases, inl, inr,
  some_inj,
}
use klappstuhl_me.Text.{Text}
use klappstuhl_me.Account.{Account}
use klappstuhl_me.Scope.{Scope, Session, has_scope, scope_set}
use klappstuhl_me.Sessions.{
  SessionInfo, info_of, is_expired, session_row, account_row, invalidate_session, is_session_valid,
  from_cache, from_row, remember, lookup_row, get_account, account_from_cache, account_from_row,
}
use klappstuhl_me.Sessions.Coherence.{Coherent, Agrees}
use klappstuhl_me.Sessions.Preservation.{info_of-Agrees, is_session_valid-Coherent}
use klappstuhl_me.Site.{Site, Store}
use klappstuhl_me.ApiToken.{
  ApiToken, strip_scheme, token_allows, granted_to, with_token, extract_api_token_from_headers,
  caller, require_account, authorize_token, authorize,
}

-- A token allows what the row of its key does.
token_allows-has_scope :
    (row : Session) (id : ℕ) (needed : Scope)
    → row.api_key ≡ true
    → token_allows (record { id = id; scopes = row.scopes }) needed ≡ has_scope row needed
unfolding token_allows has_scope scope_set
token_allows-has_scope row id needed key = rw key refl

module _ (site : Site) where
  abbrev Sound : Store site → Type 0
  Sound st = Coherent site.sessions site.users site.max_token_age st

  -- A session that is answered is a row that has not expired.
  record Backed (now : ℕ) (id : Text) (info : SessionInfo) (st : Store site) : Type 0 where
    row : Session
    found : session_row id st.rows ≡ some row
    agrees : Agrees info row
    live : is_expired site.max_token_age now info ≡ false

  is_session_valid-Backed :
      (up : Bool) (now : ℕ) (id : Text) (st : Store site) (info : SessionInfo)
      → Sound st
      → (is_session_valid site.sessions site.users site.max_token_age up now id st).1 ≡ some info
      → Backed now id info st
  unfolding is_session_valid
  is_session_valid-Backed up now id st info c h =
      from (site.sessions.get id st.valid_sessions) refl h
    where
      stored :
          (row : Session)
          → session_row id st.rows ≡ some row
          → (remember site.sessions site.users site.max_token_age up now id (info_of row) st).1
            ≡ some info
          → Backed now id info st
      stored row e k = elim (Bool-cases (is_expired site.max_token_age now (info_of row))) [
        | inl old ↦ cc (rw old at k)
        | inr live ↦
            let same : info_of row ≡ info = some_inj (rw live at k) in
            record {
              row = row;
              found = e;
              agrees =
                  subst (λ i. Agrees i row) same
                    (info_of-Agrees site.sessions site.users site.max_token_age row);
              live = ap (is_expired site.max_token_age now) (sym same) ∙ live;
            }
      ]

      looked_up :
          (up' : Bool) (o : Option Session)
          → lookup_row site.sessions site.users site.max_token_age up' id st ≡ o
          → (from_row site.sessions site.users site.max_token_age up now id st o).1 ≡ some info
          → Backed now id info st
      looked_up up' none e k = cc
      looked_up true (some row) e k = stored row e k
      looked_up false (some row) e k = cc

      from :
          (o : Option SessionInfo)
          → site.sessions.get id st.valid_sessions ≡ o
          → (from_cache site.sessions site.users site.max_token_age up now id st o).1 ≡ some info
          → Backed now id info st
      from none e k = looked_up up _ refl k
      from (some known) e k = elim (Bool-cases (is_expired site.max_token_age now known)) [
        | inl old ↦ cc (rw old at k)
        | inr live ↦
            let same : known ≡ info = some_inj (rw live at k) in
            let (row, found, agrees) = c.sessions_agree id known e in
            record {
              row = row;
              found = found;
              agrees = subst (λ i. Agrees i row) same agrees;
              live = ap (is_expired site.max_token_age now) (sym same) ∙ live;
            }
      ]

  same_accounts :
      (up : Bool) (now : ℕ) (id : Text) (st : Store site)
      → (is_session_valid site.sessions site.users site.max_token_age up now id st).0.accounts
        ≡ st.accounts
  unfolding is_session_valid invalidate_session
  same_accounts up now id st = from (site.sessions.get id st.valid_sessions)
    where
      stored :
          (o : Option Session)
          → (from_row site.sessions site.users site.max_token_age up now id st o).0.accounts
            ≡ st.accounts
      stored none = refl
      stored (some row) = elim (Bool-cases (is_expired site.max_token_age now (info_of row))) [
        | inl old ↦ rw old refl
        | inr live ↦ rw live refl
      ]

      from :
          (o : Option SessionInfo)
          → (from_cache site.sessions site.users site.max_token_age up now id st o).0.accounts
            ≡ st.accounts
      from none = stored _
      from (some known) = elim (Bool-cases (is_expired site.max_token_age now known)) [
        | inl old ↦ rw old refl
        | inr live ↦ rw live refl
      ]

  get_account-row :
      (up : Bool) (id : ℕ) (st : Store site) (a : Account)
      → Sound st
      → (get_account site.sessions site.users site.max_token_age up id st).1 ≡ some a
      → account_row id st.accounts ≡ some a
  unfolding get_account
  get_account-row up id st a c h = from up (site.users.get id st.cached_users) refl h
    where
      from_table :
          (o : Option Account)
          → account_row id st.accounts ≡ o
          → (account_from_row site.sessions site.users site.max_token_age st o).1 ≡ some a
          → account_row id st.accounts ≡ some a
      from_table none e k = cc
      from_table (some b) e k = e ∙ k

      from :
          (up : Bool) (o : Option Account)
          → site.users.get id st.cached_users ≡ o
          → (account_from_cache site.sessions site.users site.max_token_age up id st o).1 ≡ some a
          → account_row id st.accounts ≡ some a
      from up (some b) e k = c.users_agree id b e ∙ k
      from true none e k = from_table _ refl k
      from false none e k = cc

  require_account-granted :
      (up : Bool) (needed : Scope) (token : ApiToken) (st : Store site) (a : Account)
      → (require_account site up needed token st).1 ≡ granted_to a
      → (token_allows token needed ≡ true)
        × ((get_account site.sessions site.users site.max_token_age up token.id st).1 ≡ some a)
  unfolding require_account
  require_account-granted up needed token st a h = elim (Bool-cases (token_allows token needed)) [
    | inr refused ↦ cc (rw refused at h)
    | inl allowed ↦ (
      allowed,
      called (get_account site.sessions site.users site.max_token_age up token.id st)
          (rw allowed at h),
    )
  ]
    where
      called : (r : Store site × Option Account) → (caller site r).1 ≡ granted_to a → r.1 ≡ some a
      called (next, none) k = cc
      called (next, some b) k = let same : b ≡ a = cc k in ap some same

  -- What a request that is let through has shown.
  pub record Authorized (now : ℕ) (needed : Scope) (header : Option Text) (a : Account)
      (st : Store site) : Type 0 where
    pub value : Text
    pub row : Session
    pub sent : header ≡ some value
    pub found : session_row (strip_scheme value) st.rows ≡ some row
    pub key : row.api_key ≡ true
    pub owner : account_row row.account_id st.accounts ≡ some a
    pub allowed : has_scope row needed ≡ true

  -- From caches that agree with the tables, an endpoint serves an account only for a header with an API
  -- key that is a row of that account and has the scope that the endpoint needs.
  pub authorize-Authorized :
      (up up' : Bool) (now : ℕ) (needed : Scope) (header : Option Text) (st : Store site)
      (a : Account)
      → Sound st
      → (authorize site up up' now needed header st).1 ≡ granted_to a
      → Authorized now needed header a st
  unfolding authorize extract_api_token_from_headers
  authorize-Authorized up up' now needed none st a c h = cc
  authorize-Authorized up up' now needed (some value) st a c h =
      from
        (is_session_valid site.sessions site.users site.max_token_age up now (strip_scheme value)
          st)
        refl h
    where
      served :
          (next : Store site) (info : SessionInfo)
          → next.accounts ≡ st.accounts
          → Sound next
          → Backed now (strip_scheme value) info st
          → info.api_key ≡ true
          → (require_account site up' needed (record { id = info.id; scopes = info.scopes }) next).1
            ≡ granted_to a
          → Authorized now needed (some value) a st
      served next info same sound b key k =
          let (allowed, called) =
            require_account-granted up' needed (record { id = info.id; scopes = info.scopes }) next
              a k in
          let kind : b.row.api_key ≡ true = sym b.agrees.kind ∙ key in
          record {
            value = value;
            row = b.row;
            sent = refl;
            found = b.found;
            key = kind;
            owner =
                ap (λ n. account_row n st.accounts) (sym b.agrees.owner)
                ∙ ap (account_row info.id) (sym same)
                ∙ get_account-row up' info.id next a sound called;
            allowed =
                sym (token_allows-has_scope b.row info.id needed kind)
                ∙ ap (λ t. token_allows (record { id = info.id; scopes = t }) needed)
                    (sym (b.agrees.granted kind))
                ∙ allowed;
          }

      from :
          (r : Store site × Option SessionInfo)
          → is_session_valid site.sessions site.users site.max_token_age up now
              (strip_scheme value)
              st
            ≡ r
          → (authorize_token site up' needed (with_token site r)).1 ≡ granted_to a
          → Authorized now needed (some value) a st
      from (next, none) e k = cc
      from (next, some info) e k = elim (Bool-cases info.api_key) [
        | inr browser ↦ cc (rw browser at k)
        | inl key ↦
            let next_is = ap (λ (r : Store site × Option SessionInfo). r.0) e in
            let answer = ap (λ (r : Store site × Option SessionInfo). r.1) e in
            served next info
              (ap (λ (t : Store site). t.accounts) (sym next_is)
                ∙ same_accounts up now (strip_scheme value) st)
              (subst Sound next_is (
                is_session_valid-Coherent site.sessions site.users site.max_token_age up now
                  (strip_scheme value) st c))
              (is_session_valid-Backed up now (strip_scheme value) st info c answer) key
              (rw key at k)
      ]
