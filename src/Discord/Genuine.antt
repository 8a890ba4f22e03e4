-- ===== src/Discord/Genuine.antt =====
-- What the callback of Discord asks before it links an account or signs somebody in.
use klappstuhl_me.Prelude.{
  ◌≡◌, refl, ℕ, Bool-cases, Option-cases, true, false, Option, none, some, [], ltb, inl, inr,
}
use klappstuhl_me.Text.{Text, codes}
use klappstuhl_me.Redirect.{safe_next_for_domain}
use klappstuhl_me.Redirect.Parts.{IsSafe}
use klappstuhl_me.Redirect.Laws.{safe_next_for_domain-IsSafe}
use klappstuhl_me.Site.{Site, Request}
use klappstuhl_me.Discord.{DiscordUser, Linked, Answer}
use klappstuhl_me.Discord.Callback.{
  OauthState, CallbackQuery, Exchange, identified, not_connected, no_token, no_identity, Flow,
  handled, is_enabled, discord_redirect_uri, target_of, dispatch, handled_by, with_exchange,
  with_uri, with_state, with_parameters, unless_denied, discord_callback,
}

target_of-IsSafe : (trusted : Text) (o : OauthState) → IsSafe (some trusted) (target_of trusted o)
unfolding klappstuhl_me.Text.contains_char
target_of-IsSafe trusted o = elim (Option-cases (safe_next_for_domain o.next (some trusted))) [
  | inl missing ↦ rw missing (refl, inl ([], refl, λ more e. cc))
  | inr (t, found) ↦
      let (n, is, same, safe) = safe_next_for_domain-IsSafe o.next (some trusted) t found in
      rw found safe
]

module _ (site : Site) (f : Flow) (req : Request) (random suffix : ℕ) where
  -- The state that comes back is one that was signed and lives, Discord knows the user, and the
  -- target of a sign-in is safe.
  pub record Genuine (q : CallbackQuery) (st out : Linked site) (a : Answer) : Type 0 where
    pub not_cancelled : q.error ≡ none
    pub code : Text
    pub signed : Text
    pub state : OauthState
    pub uri : Text
    pub user : DiscordUser
    pub has_code : q.code ≡ some code
    pub has_state : q.state ≡ some signed
    pub verified : f.verify_state signed ≡ some state
    pub lives : ltb state.exp req.now ≡ false
    pub enabled : is_enabled f.discord ≡ true
    pub comes_back : discord_redirect_uri f ≡ some uri
    pub known : f.exchange code uri ≡ identified user
    pub safe : IsSafe (some site.trusted_domain) (target_of site.trusted_domain state)
    pub result :
        dispatch site req random suffix user state.account_id
          (target_of site.trusted_domain state)
          st
        ≡ (out, a)

  handled_by_inj :
      {out : Linked site} {a : Answer} (p : Linked site × Answer)
      → handled_by site p ≡ (out, handled a)
      → p ≡ (out, a)
  handled_by_inj (st, b) h = cc

  exchange_identified :
      {out : Linked site} {a : Answer} (o : OauthState) (x : Exchange) (st : Linked site)
      → with_exchange site req random suffix o x st ≡ (out, handled a)
      → (user : DiscordUser) × (x ≡ identified user)
        × (dispatch site req random suffix user o.account_id (target_of site.trusted_domain o) st
            ≡ (out, a))
  exchange_identified o not_connected st h = cc
  exchange_identified o no_token st h = cc
  exchange_identified o no_identity st h = cc
  exchange_identified o (identified user) st h = (user, refl, handled_by_inj _ h)

  uri_identified :
      {out : Linked site} {a : Answer} (code : Text) (o : OauthState) (u : Option Text)
      (st : Linked site)
      → with_uri site f req random suffix code o u st ≡ (out, handled a)
      → (uri : Text) × (user : DiscordUser) × (u ≡ some uri)
        × (f.exchange code uri ≡ identified user)
        × (dispatch site req random suffix user o.account_id (target_of site.trusted_domain o) st
            ≡ (out, a))
  uri_identified code o none st h = cc
  uri_identified code o (some uri) st h =
      let (user, known, done) = exchange_identified o (f.exchange code uri) st h in
      (uri, user, refl, known, done)

  -- A callback reaches the link or the sign-in only if it is not cancelled, with a code and a
  -- state that verifies and whose time is not over, where the sign-in with Discord is configured
  -- and Discord names a user for the code. The answer is then that of the link or the sign-in, and
  -- the target of a sign-in is one that the validation of redirects calls safe.
  pub discord_callback-Genuine :
      (q : CallbackQuery) (st out : Linked site) (a : Answer)
      → discord_callback site f req random suffix q st ≡ (out, handled a)
      → Genuine q st out a
  unfolding discord_callback
  discord_callback-Genuine q st out a = from_error q.error refl
    where
      from_state :
          (code signed : Text) (s : Option OauthState)
          → q.error ≡ none
          → q.code ≡ some code
          → q.state ≡ some signed
          → f.verify_state signed ≡ s
          → with_state site f req random suffix code s st ≡ (out, handled a)
          → Genuine q st out a
      from_state code signed none e c s v h = cc
      from_state code signed (some o) e c s v h = elim (Bool-cases (ltb o.exp req.now)) [
        | inl late ↦ cc (rw late at h)
        | inr lives ↦ elim (Bool-cases (is_enabled f.discord)) [
          | inr off ↦ cc (rw (lives, off) at h)
          | inl on ↦
              let (uri, user, back, known, done) =
                uri_identified code o (discord_redirect_uri f) st (rw (lives, on) at h) in
              record {
                not_cancelled = e;
                code = code;
                signed = signed;
                state = o;
                uri = uri;
                user = user;
                has_code = c;
                has_state = s;
                verified = v;
                lives = lives;
                enabled = on;
                comes_back = back;
                known = known;
                safe = target_of-IsSafe site.trusted_domain o;
                result = done;
              }
        ]
      ]

      from_parameters :
          (code signed : Option Text)
          → q.error ≡ none
          → q.code ≡ code
          → q.state ≡ signed
          → with_parameters site f req random suffix code signed st ≡ (out, handled a)
          → Genuine q st out a
      from_parameters none signed e c s h = cc
      from_parameters (some code) none e c s h = cc
      from_parameters (some code) (some signed) e c s h =
          from_state code signed (f.verify_state signed) e c s refl h

      from_error :
          (o : Option Text)
          → q.error ≡ o
          → unless_denied site f req random suffix q o st ≡ (out, handled a)
          → Genuine q st out a
      from_error (some error) e h = cc
      from_error none e h = from_parameters q.code q.state e refl refl h
