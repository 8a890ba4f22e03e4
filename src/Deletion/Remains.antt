-- ===== src/Deletion/Remains.antt =====
-- What a deletion leaves in the caches, and that an administrator is left.
use klappstuhl_me.Prelude.{
  ℕ, suc, ◌+◌, ◌≤◌, ◌≡◌, refl, sym, ap, ◌∙◌, Bool, true, false, not, some, List, [], ◌∷◌,
  if◌then◌else◌, ◌==◌, leb, Bool-cases, inl, inr, any, keep_if, length, arith, ==_iff, some_inj,
}
use klappstuhl_me.Text.{Text}
use klappstuhl_me.Account.{Account, is_admin}
use klappstuhl_me.Scope.{Session}
use klappstuhl_me.Sessions.{
  SessionInfo, account_row, is_login_of, is_expired, is_session_valid, invalidate_account_sessions,
  invalidate_where, forget_all, invalidate_account_cache,
}
use klappstuhl_me.Site.{Site, Request}
use klappstuhl_me.Deletion.{
  DeleteAccountForm, deleted, Estate, purge_account, delete_row, finish, delete_account,
  is_last_admin,
}
use klappstuhl_me.Deletion.Guards.{delete_account-Deleted}

module _ (id : ℕ) where
  -- After the cascade no login of the account is a row.
  no_logins :
      (rows : List Session)
      → keep_if (is_login_of id) (keep_if (λ (r : Session). not (r.account_id == id)) rows) ≡ []
  no_logins [] = refl
  no_logins (r ∷ rows) = elim (Bool-cases (r.account_id == id)) [
    | inl mine ↦ rw mine (no_logins rows)
    | inr other ↦ rw (other, other) (no_logins rows)
  ]

  -- No account id stands twice.
  abbrev UniqueAccounts : List Account → Type 0
  UniqueAccounts [] = Unit {0}
  UniqueAccounts (a ∷ ys) = (any (λ (b : Account). b.id == a.id) ys ≡ false) × UniqueAccounts ys

  abbrev others : List Account → List Account
  others ys = keep_if (λ (a : Account). not (a.id == id)) ys

  others_all : (ys : List Account) → any (λ (b : Account). b.id == id) ys ≡ false → others ys ≡ ys
  others_all [] h = refl
  others_all (a ∷ ys) h = elim (Bool-cases (a.id == id)) [
    | inl mine ↦ cc (rw mine at h)
    | inr other ↦ rw other (ap (λ bs. a ∷ bs) (others_all ys (rw other at h)))
  ]

  -- One row goes, at most.
  admins_left :
      (ys : List Account)
      → UniqueAccounts ys
      → length (keep_if is_admin ys) ≤ suc (length (keep_if is_admin (others ys)))
  admins_left [] u = omega arith
  admins_left (a ∷ ys) u = elim (Bool-cases (a.id == id)) [
    | inl mine ↦
        let alone : any (λ (b : Account). b.id == id) ys ≡ false =
          ap (λ n. any (λ (b : Account). b.id == n) ys) (sym ((==_iff a.id id).0 mine)) ∙ u.0 in
        elim (Bool-cases (is_admin a)) [
          | inl admin ↦ rw (mine, admin, others_all ys alone) (omega arith)
          | inr plain ↦ rw (mine, plain, others_all ys alone) (omega arith)
        ]
    | inr other ↦ elim (Bool-cases (is_admin a)) [
      | inl admin ↦ rw (other, admin) (omega (arith, admins_left ys u.1))
      | inr plain ↦ rw (other, plain) (admins_left ys u.1)
    ]
  ]

  abbrev admins : List Account → ℕ
  admins ys = length (keep_if is_admin ys)

  none_lost :
      (ys : List Account) (a : Account)
      → UniqueAccounts ys
      → account_row id ys ≡ some a
      → is_admin a ≡ false
      → admins (others ys) ≡ admins ys
  none_lost [] a u h plain = refl
  none_lost (b ∷ ys) a u h plain = elim (Bool-cases (b.id == id)) [
    | inl mine ↦
        let alone : any (λ (c : Account). c.id == id) ys ≡ false =
          ap (λ n. any (λ (c : Account). c.id == n) ys) (sym ((==_iff b.id id).0 mine)) ∙ u.0 in
        let same : b ≡ a = some_inj (rw mine at h) in
        rw (mine, others_all ys alone, ap is_admin same ∙ plain) refl
    | inr other ↦
        let later = none_lost ys a u.1 (rw other at h) plain in
        elim (Bool-cases (is_admin b)) [
          | inl admin ↦ rw (other, admin, later) refl
          | inr plain_too ↦ rw (other, plain_too, later) refl
        ]
  ]

  counted : (ys : List Account) → any is_admin ys ≡ true → 1 ≤ admins ys
  counted [] h = cc
  counted (a ∷ ys) h = elim (Bool-cases (is_admin a)) [
    | inl admin ↦ rw admin (omega arith)
    | inr plain ↦ rw plain (counted ys (rw plain at h))
  ]

  there : (ys : List Account) → 1 ≤ admins ys → any is_admin ys ≡ true
  there [] h = absurd (omega (arith, h))
  there (a ∷ ys) h = elim (Bool-cases (is_admin a)) [
    | inl admin ↦ rw admin refl
    | inr plain ↦ rw plain (there ys (rw plain at h))
  ]

more_than_one : (up : Bool) (n : ℕ) → leb (if up then n else 0) 1 ≡ false → 1 + 1 ≤ n
more_than_one true n h = ground arith
more_than_one false n h = ground arith

module _ (site : Site) where
  -- The cache of sessions is the one before: what the deletion of the rows returns is nothing, since
  -- the cascade was first.
  same_cache :
      (req : Request) (account : Account) (delete_images : Bool) (e : Estate site)
      → (finish site req account
          (purge_account site account.id delete_images e)).app.store.valid_sessions
        ≡ e.app.store.valid_sessions
  unfolding purge_account delete_row invalidate_account_sessions invalidate_where forget_all
      invalidate_account_cache
  same_cache req account delete_images e = elim (Bool-cases (req.up 5)) [
    | inl up ↦ from delete_images up
    | inr down ↦ rest delete_images down
  ]
    where
      from :
          (b : Bool)
          → req.up 5 ≡ true
          → (finish site req account (purge_account site account.id b e)).app.store.valid_sessions
            ≡ e.app.store.valid_sessions
      from true up = rw (up, no_logins account.id e.app.store.rows) refl
      from false up = rw (up, no_logins account.id e.app.store.rows) refl

      rest :
          (b : Bool)
          → req.up 5 ≡ false
          → (finish site req account (purge_account site account.id b e)).app.store.valid_sessions
            ≡ e.app.store.valid_sessions
      rest true down = rw down refl
      rest false down = rw down refl

  -- An API key, or another browser's session, of a deleted account that is in the cache and has not
  -- expired is still valid after the deletion, for the account's id.
  pub delete_account-stays_valid :
      (req : Request) (session : Text) (account : Account) (form : DeleteAccountForm)
      (e out : Estate site) (key : Text) (info : SessionInfo) (up : Bool) (later : ℕ)
      → delete_account site req session account form e ≡ (out, deleted)
      → site.sessions.get key e.app.store.valid_sessions ≡ some info
      → is_expired site.max_token_age later info ≡ false
      → (is_session_valid site.sessions site.users site.max_token_age up later key out.app.store).1
        ≡ some info
  unfolding is_session_valid
  delete_account-stays_valid req session account form e out key info up later h cached live =
      let done = delete_account-Deleted site req session account form e out h in
      let kept : site.sessions.get key out.app.store.valid_sessions ≡ some info =
        ap (λ (x : Estate site). site.sessions.get key x.app.store.valid_sessions) done.done
        ∙ ap (site.sessions.get key) (same_cache req account form.delete_images e)
        ∙ cached in
      rw (kept, live) refl

  accounts_after :
      (req : Request) (account : Account) (delete_images : Bool) (e : Estate site)
      → (finish site req account (purge_account site account.id delete_images e)).app.store.accounts
        ≡ others account.id e.app.store.accounts
  unfolding purge_account delete_row invalidate_account_sessions invalidate_where
      invalidate_account_cache
  accounts_after req account true e = elim (Bool-cases (req.up 5)) [
    | inl up ↦ rw up refl
    | inr down ↦ rw down refl
  ]
  accounts_after req account false e = elim (Bool-cases (req.up 5)) [
    | inl up ↦ rw up refl
    | inr down ↦ rw down refl
  ]

  -- Whoever deletes an account, an administrator is left where one was: the statement that counts them
  -- is answered or the deletion refused, and no account id stands twice.
  pub delete_account-admin_left :
      (req : Request) (session : Text) (account : Account) (form : DeleteAccountForm)
      (e out : Estate site)
      → UniqueAccounts account.id e.app.store.accounts
      → account_row account.id e.app.store.accounts ≡ some account
      → delete_account site req session account form e ≡ (out, deleted)
      → any is_admin e.app.store.accounts ≡ true
      → any is_admin out.app.store.accounts ≡ true
  delete_account-admin_left req session account form e out u listed h some_admin =
      let done = delete_account-Deleted site req session account form e out h in
      let ys = e.app.store.accounts in
      let left : 1 ≤ admins account.id (others account.id ys) =
        elim (Bool-cases (is_admin account)) [
          | inr plain ↦
              rw (none_lost account.id ys account u listed plain) (counted account.id ys some_admin)
          | inl admin ↦
              let many : 1 + 1 ≤ admins account.id ys =
                more_than_one (req.up 1) _ (unfold is_last_admin in rw admin at done.spared) in
              omega (arith, many, admins_left account.id ys u)
        ] in
      ap (λ (x : Estate site). any is_admin x.app.store.accounts) done.done
      ∙ ap (any is_admin) (accounts_after req account form.delete_images e)
      ∙ there account.id (others account.id ys) left
