-- ===== src/Login/Guards.antt =====
-- What stands behind a session that a password alone opens, and what a locked address is told.
use klappstuhl_me.Prelude.{
  ℕ, ◌≡◌, ◌⊎◌, refl, sym, ap, ◌∙◌, subst, Bool, true, false, not, Option, none, some, Bool-cases,
  Option-cases, inl, inr, if◌then◌else◌,
}
use klappstuhl_me.Text.{Text, codes}
use klappstuhl_me.Account.{Account, is_valid_username, has_totp}
use klappstuhl_me.Redirect.Parts.{IsSafe}
use klappstuhl_me.Redirect.Laws.{safe_next_for_domain-IsSafe}
use klappstuhl_me.Site.{Site, Request, AppState, login_session, forget_account, saved, audited}
use klappstuhl_me.Login.{
  Credentials, Refusal, Answer, refused, signed_in, invalid_username, password_length,
  too_many_failures, database_error, is_password_length, is_locked_out, issue, challenge,
  pending_of, admit, hash_of, compare_hash, account_named, authenticate, safe_target,
  target_or_root,
}

module _ (site : Site) where
  abbrev Reply : Type 0
  Reply = AppState site × Answer

  -- What is not refused has passed the test.
  pub passed :
      (b : Bool) (early : AppState site) (e : Refusal) (late : Reply) (out : AppState site)
      (id : Text) (stay : Bool) (target : Text)
      → (if b then (early, refused e) else late) ≡ (out, signed_in id stay target)
      → (b ≡ false) × (late ≡ (out, signed_in id stay target))
  passed false early e late out id stay target h = (refl, h)
  passed true early e late out id stay target h = cc (ap (λ (p : Reply). p.1) h)

  -- What a login without a second step did.
  pub record Opened (n : ℕ) (req : Request) (acc : Account) (description : Option Text)
      (before out : AppState site) (id : Text) : Type 0 where
    pub drawn : req.token ≡ some id
    pub stored :
        out
        ≡ audited site
            (codes "auth.login.success")
            (saved site (req.up n) (login_session req.now id acc.id description) before)

  pub issue-Opened :
      (n : ℕ) (req : Request) (acc : Account) (description : Option Text) (remember : Bool)
      (goal : Text) (token : Option Text) (before out : AppState site) (id : Text) (stay : Bool)
      (target : Text)
      → req.token ≡ token
      → issue site n req acc.id description remember goal token before
        ≡ (out, signed_in id stay target)
      → (stay ≡ remember) × (target ≡ goal) × Opened n req acc description before out id
  issue-Opened n req acc description remember goal none before out id stay target e h =
      cc (ap (λ (p : Reply). p.1) h)
  issue-Opened n req acc description remember goal (some token) before out id stay target e h =
      let answers : signed_in token remember goal ≡ signed_in id stay target =
        ap (λ (p : Reply). p.1) h in
      let same : token ≡ id = cc answers in
      (
        cc answers,
        cc answers,
        record {
          drawn = e ∙ ap some same;
          stored =
              sym (ap (λ (p : Reply). p.0) h)
              ∙ ap
                  (λ t.
                    audited site (codes "auth.login.success")
                      (saved site (req.up n) (login_session req.now t acc.id description) before))
                  same;
        },
      )

  -- A login leads to a safe target or to the root.
  pub target_or_root-IsSafe :
      (next : Option Text)
      → (target_or_root site next ≡ codes "/")
        ⊎ IsSafe (some site.trusted_domain) (target_or_root site next)
  target_or_root-IsSafe next = elim (Option-cases (safe_target site next)) [
    | inl nothing ↦ rw nothing (inl refl)
    | inr (t, safe) ↦
        let (_, _, _, good) = safe_next_for_domain-IsSafe next (some site.trusted_domain) t safe in
        rw safe (inr good)
  ]

  -- The reasons for a session without a second factor.
  pub record PasswordLogin (req : Request) (k : Credentials) (st out : AppState site) (id : Text)
      (stay : Bool) (target : Text) : Type 0 where
    pub acc : Account
    pub named : account_named site k.username st ≡ some acc
    pub proved : site.validate_password k.password acc.password ≡ true
    pub single_factor : has_totp acc ≡ false
    pub unlocked : is_locked_out site req.now req.ip st ≡ false
    pub kept : stay ≡ k.remember_me
    pub safe : (target ≡ codes "/") ⊎ IsSafe (some site.trusted_domain) target
    pub opened : Opened 1 req acc k.session_description (forget_account site acc.id st) out id

  admit-PasswordLogin :
      (req : Request) (k : Credentials) (o : Option Account) (st out : AppState site) (id : Text)
      (stay : Bool) (target : Text)
      → account_named site k.username st ≡ o
      → is_locked_out site req.now req.ip st ≡ false
      → site.validate_password k.password (hash_of site o) ≡ true
      → admit site req k o st ≡ (out, signed_in id stay target)
      → PasswordLogin req k st out id stay target
  admit-PasswordLogin req k none st out id stay target e u v h = cc (ap (λ (p : Reply). p.1) h)
  admit-PasswordLogin req k (some acc) st out id stay target e u v h =
      elim (Bool-cases (has_totp acc)) [
        | inl second ↦
            absurd (unchallenged (site.sign (pending_of site req k acc)) (rw second at h))
        | inr single ↦
            let (kept, goal, opened) =
              issue-Opened 1 req acc k.session_description k.remember_me _ req.token _ out id stay
                target refl (rw single at h) in
            record {
              acc = acc;
              named = e;
              proved = v;
              single_factor = single;
              unlocked = u;
              kept = kept;
              safe =
                  subst (λ t. (t ≡ codes "/") ⊎ IsSafe (some site.trusted_domain) t) (sym goal)
                    (target_or_root-IsSafe k.next);
              opened = opened;
            }
      ]
    where
      unchallenged :
          (signed : Option Text)
          → challenge site signed (forget_account site acc.id st) ≡ (out, signed_in id stay target)
          → ⊥
      unchallenged none h = cc (ap (λ (p : Reply). p.1) h)
      unchallenged (some signed) h = cc (ap (λ (p : Reply). p.1) h)

  -- Where the password step alone answers with a session, there is an account of the name, the
  -- password matches it, it has no second factor, and the address is not locked out; the target is
  -- the root or safe. The state is the one before, with the copy of the account forgotten, an
  -- audit row, and the session of the drawn token saved: a row where the database answers that
  -- statement, and nothing where it does not, which the answer does not tell.
  pub authenticate-PasswordLogin :
      (req : Request) (k : Credentials) (st out : AppState site) (id : Text) (stay : Bool)
      (target : Text)
      → authenticate site req k st ≡ (out, signed_in id stay target)
      → PasswordLogin req k st out id stay target
  unfolding authenticate
  authenticate-PasswordLogin req k st out id stay target h =
      let checks = compare_hash site req k (account_named site k.username st) st in
      let third = if not (req.up 0) then (st, refused database_error) else checks in
      let throttled = audited site (codes "auth.login.throttled") st in
      let second =
        if is_locked_out site req.now req.ip st
        then (throttled, refused too_many_failures)
        else third in
      let first =
        if not (is_password_length k.password) then (st, refused password_length) else second in
      let (_, h1) =
        passed (not (is_valid_username k.username)) st invalid_username first out id stay target
          h in
      let (_, h2) =
        passed (not (is_password_length k.password)) st password_length second out id stay target
          h1 in
      let (unlocked, h3) =
        passed (is_locked_out site req.now req.ip st) throttled too_many_failures third out id stay
          target h2 in
      let (_, h4) = passed (not (req.up 0)) st database_error checks out id stay target h3 in
      elim (Bool-cases
        (site.validate_password k.password (hash_of site (account_named site k.username st)))) [
          | inl proved ↦
              admit-PasswordLogin req k (account_named site k.username st) st out id stay target
                refl unlocked proved (rw proved at h4)
          | inr wrong ↦ cc (ap (λ (p : Reply). p.1) (rw wrong at h4))
        ]

  -- An address that is locked out is refused, whatever the credentials: no session, no failure and no
  -- account changes.
  pub authenticate-locked :
      (req : Request) (k : Credentials) (st : AppState site)
      → is_locked_out site req.now req.ip st ≡ true
      → ((e : Refusal) × ((authenticate site req k st).1 ≡ refused e))
        × ((authenticate site req k st).0.store ≡ st.store)
        × ((authenticate site req k st).0.failures ≡ st.failures)
        × ((authenticate site req k st).0.recovery ≡ st.recovery)
  unfolding authenticate
  authenticate-locked req k st locked = elim (Bool-cases (is_valid_username k.username)) [
    | inr bad ↦ rw bad ((_, refl), refl, refl, refl)
    | inl good ↦ elim (Bool-cases (is_password_length k.password)) [
      | inr bad ↦ rw (good, bad) ((_, refl), refl, refl, refl)
      | inl fits ↦ rw (good, fits, locked) ((_, refl), refl, refl, refl)
    ]
  ]
