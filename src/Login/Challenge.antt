-- ===== src/Login/Challenge.antt =====
-- The second step of a login: what it takes, that it can be passed, and that a recovery code is
-- spent once.
use klappstuhl_me.Prelude.{
  ℕ, ◌≡◌, ◌⊎◌, refl, ap, Bool, true, false, ◌&&◌, Option, none, some, List, [], ◌∷◌, map, any,
  Bool-cases, inl, inr, ltb, arith,
}
use klappstuhl_me.Text.{Text, Bytes, trim}
use klappstuhl_me.Account.{Account}
use klappstuhl_me.Totp.{verify, hash_recovery_code}
use klappstuhl_me.Site.{Site, PendingTotp, Request, AppState, RecoveryCode, load_full_account}
use klappstuhl_me.Login.{
  Answer, signed_in, challenge_expired, is_unused, spend, consume_recovery_code, accepts_code,
  finish, with_secret, secret_of, with_account, with_pending, login_totp_verify, target_or_root,
}
use klappstuhl_me.Login.Guards.{passed, issue-Opened}

spent_is_used :
    (now id : ℕ) (hash : Text) (c : RecoveryCode) → is_unused id hash (spend now id hash c) ≡ false
spent_is_used now id hash c = elim (Bool-cases (is_unused id hash c)) [
  | inl fresh ↦ rw fresh (never _ _)
  | inr used ↦ rw used used
]
  where
    never : (a b : Bool) → (a && (b && false)) ≡ false
    never a b = ground arith

spend_idem :
    (now later id : ℕ) (hash : Text) (c : RecoveryCode)
    → spend later id hash (spend now id hash c) ≡ spend now id hash c
spend_idem now later id hash c = rw (spent_is_used now id hash c) refl

none_left :
    (now id : ℕ) (hash : Text) (cs : List RecoveryCode)
    → any (is_unused id hash) (map (spend now id hash) cs) ≡ false
none_left now id hash [] = refl
none_left now id hash (c ∷ cs) = rw (spent_is_used now id hash c, none_left now id hash cs) refl

spend_all_idem :
    (now later id : ℕ) (hash : Text) (cs : List RecoveryCode)
    → map (spend later id hash) (map (spend now id hash) cs) ≡ map (spend now id hash) cs
spend_all_idem now later id hash [] = refl
spend_all_idem now later id hash (c ∷ cs) =
    rw (spend_idem now later id hash c, spend_all_idem now later id hash cs) refl

module _ (site : Site) where
  -- A recovery code that was presented while the database answered is refused from then on, and
  -- presenting it again changes nothing.
  pub consume_recovery_code_once :
      (up : Bool) (now later id : ℕ) (code : Text) (st : AppState site)
      → consume_recovery_code site up later id code
          (consume_recovery_code site true now id code st).0
        ≡ ((consume_recovery_code site true now id code st).0, false)
  unfolding consume_recovery_code
  consume_recovery_code_once false now later id code st = refl
  consume_recovery_code_once true now later id code st =
      let hash = hash_recovery_code site.totp code in
      rw (none_left now id hash st.recovery, spend_all_idem now later id hash st.recovery) refl

  -- What a session behind a second factor rests on.
  pub record TotpLogin (req : Request) (code : Text) (signed : Text) (st : AppState site)
      (id : Text) : Type 0 where
    pub pending : PendingTotp
    pub acc : Account
    pub secret : Bytes
    pub genuine : site.verify_pending signed ≡ some pending
    pub in_time : ltb pending.exp req.now ≡ false
    pub loaded : load_full_account site (req.up 0) pending.account_id st ≡ some acc
    pub opened : secret_of site acc ≡ some secret
    pub drawn : req.token ≡ some id
    pub proved :
        (verify site.totp secret req.now (trim code) ≡ true)
        ⊎ ((req.up 1 ≡ true)
            × (any (is_unused acc.id (hash_recovery_code site.totp (trim code))) st.recovery
                ≡ true))

  accepted :
      (req : Request) (acc : Account) (secret : Bytes) (code : Text) (st : AppState site)
      → (accepts_code site req acc secret code st).1 ≡ true
      → (verify site.totp secret req.now code ≡ true)
        ⊎ ((req.up 1 ≡ true)
            × (any (is_unused acc.id (hash_recovery_code site.totp code)) st.recovery ≡ true))
  unfolding consume_recovery_code
  accepted req acc secret code st h = elim (Bool-cases (verify site.totp secret req.now code)) [
    | inl right ↦ inl right
    | inr wrong ↦ elim (Bool-cases (req.up 1)) [
      | inl up ↦ inr (up, rw (wrong, up) at h)
      | inr down ↦ cc (rw (wrong, down) at h)
    ]
  ]

  finished :
      (req : Request) (pending : PendingTotp) (acc : Account) (r : AppState site × Bool)
      (out : AppState site) (id : Text) (stay : Bool) (target : Text)
      → finish site req pending acc r ≡ (out, signed_in id stay target)
      → (r.1 ≡ true) × (req.token ≡ some id)
  finished req pending acc (st, false) out id stay target h =
      cc (ap (λ (p : AppState site × Answer). p.1) h)
  finished req pending acc (st, true) out id stay target h =
      let (_, _, done) =
        issue-Opened site 2 req acc pending.description pending.remember
          (target_or_root site pending.next) req.token st out id stay target refl h in
      (refl, done.drawn)

  -- Where the second step opens a session, its cookie is genuine and not past its time, the account
  -- is there with a secret that opens, and the code is the secret's at this time, or a recovery code
  -- of the account that was not used.
  pub login_totp_verify-TotpLogin :
      (req : Request) (signed : Text) (code : Text) (st out : AppState site) (id : Text)
      (stay : Bool) (target : Text)
      → login_totp_verify site req (some signed) code st ≡ (out, signed_in id stay target)
      → TotpLogin req code signed st id
  unfolding login_totp_verify
  login_totp_verify-TotpLogin req signed code st out id stay target h =
      from (site.verify_pending signed) refl h
    where
      with_key :
          (pending : PendingTotp) (acc : Account) (o : Option Bytes)
          → site.verify_pending signed ≡ some pending
          → ltb pending.exp req.now ≡ false
          → load_full_account site (req.up 0) pending.account_id st ≡ some acc
          → secret_of site acc ≡ o
          → with_secret site req pending code acc o st ≡ (out, signed_in id stay target)
          → TotpLogin req code signed st id
      with_key pending acc none g t l e k = cc (ap (λ (p : AppState site × Answer). p.1) k)
      with_key pending acc (some secret) g t l e k =
          let (ok, drawn) = finished req pending acc _ out id stay target k in
          record {
            pending = pending;
            acc = acc;
            secret = secret;
            genuine = g;
            in_time = t;
            loaded = l;
            opened = e;
            drawn = drawn;
            proved = accepted req acc secret (trim code) st ok;
          }

      with_owner :
          (pending : PendingTotp) (o : Option Account)
          → site.verify_pending signed ≡ some pending
          → ltb pending.exp req.now ≡ false
          → load_full_account site (req.up 0) pending.account_id st ≡ o
          → with_account site req pending code o st ≡ (out, signed_in id stay target)
          → TotpLogin req code signed st id
      with_owner pending none g t l k = cc (ap (λ (p : AppState site × Answer). p.1) k)
      with_owner pending (some acc) g t l k = with_key pending acc (secret_of site acc) g t l refl k

      from :
          (o : Option PendingTotp)
          → site.verify_pending signed ≡ o
          → with_pending site req code o st ≡ (out, signed_in id stay target)
          → TotpLogin req code signed st id
      from none g k = cc (ap (λ (p : AppState site × Answer). p.1) k)
      from (some pending) g k =
          let next =
            with_account site req pending code
              (load_full_account site (req.up 0) pending.account_id st) st in
          let (in_time, later) =
            passed site (ltb pending.exp req.now) st challenge_expired next out id stay target k in
          with_owner pending (load_full_account site (req.up 0) pending.account_id st) g in_time
            refl later
