-- ===== src/Paste/Body/RoundTrip.antt =====
-- A stored body comes back as it was written.
use klappstuhl_me.Prelude.{
  subst, ℕ, ◌+◌, ◌<◌, ◌≡◌, refl, sym, ap, ◌∙◌, Bool, true, false, not, ◌&&◌, Option, none, some,
  List, arith, all, length, leb, ◌>>=◌, some_inj,
}
use klappstuhl_me.Text.{Text, Bytes, encode, is_scalar}
use klappstuhl_me.Text.Equality.{text_eq_refl}
use klappstuhl_me.Text.Utf8.{from_utf8-encode}
use klappstuhl_me.Paste.Row.{Paste, is_encrypted}
use klappstuhl_me.Paste.External.{External, Opens, Verifies, Decodes}
use klappstuhl_me.Paste.Crypto.{
  Sealed, key_len, unlock_ttl_secs, seal, derive_key, seal_with_key, open_with_key,
  open_and_keep_key, sign_unlock, verify_unlock,
}
use klappstuhl_me.Paste.Body.{plain, unlock_cookie, unlocked, resolve_body}

unlocked_lem :
    (x : External) (now : ℕ) (paste : Paste) (nonce : Bytes) (token : Text) (key : Bytes)
    (content : Text) (stored : Option Bytes) (cookie : Option Text)
    → stored ≡ some nonce
    → cookie ≡ some token
    → verify_unlock x now paste.id token ≡ some key
    → open_with_key x key nonce paste.content ≡ some (encode content)
    → all is_scalar content ≡ true
    → unlocked x now paste stored cookie ≡ plain content
unlocked_lem x now paste nonce token key content stored cookie h₁ h₂ h₃ h₄ h₅ =
    rw (h₁, h₂, h₃, h₄, from_utf8-encode content h₅)

module _ (x : External) (opens : Opens x) where
  -- A sealed body opens under its password, with the key that then also opens it alone.
  abbrev pub Opened : Text → Bytes → Sealed → Type 0
  Opened password plaintext s =
      (key : Bytes) × (open_and_keep_key x password s.salt s.nonce s.ciphertext
        ≡ some (key, plaintext))
      × (open_with_key x key s.nonce s.ciphertext ≡ some plaintext)

  module _ (salt nonce plaintext : Bytes) (password : Text) (s : Sealed) where
    with_ciphertext :
        (key : Bytes) (c : Option Bytes)
        → derive_key x password salt ≡ some key
        → seal_with_key x key nonce plaintext ≡ c
        → (c >>= λ sealed. some (record { ciphertext = sealed; salt = salt; nonce = nonce }))
          ≡ some s
        → Opened password plaintext s
    unfolding seal_with_key open_with_key open_and_keep_key
    with_ciphertext key none derived sealed h = cc
    with_ciphertext key (some c) derived sealed h =
        let o = opens key nonce plaintext c sealed in rw (← some_inj h) (key, rw (derived, o), o)

    with_key :
        (k : Option Bytes)
        → derive_key x password salt ≡ k
        → (do
          key ← k
          ciphertext ← seal_with_key x key nonce plaintext
          some (record { ciphertext = ciphertext; salt = salt; nonce = nonce }))
          ≡ some s
        → Opened password plaintext s
    with_key none derived h = cc
    with_key (some key) derived h = with_ciphertext key _ derived refl h

  -- What was sealed under a password opens under it, and with the key that comes with it, where
  -- the cipher opens what it sealed.
  pub open-seal :
      (salt nonce : Option Bytes) (password : Text) (plaintext : Bytes) (s : Sealed)
      → seal x salt nonce password plaintext ≡ some s
      → Opened password plaintext s
  unfolding seal
  open-seal none iv password plaintext s h = cc
  open-seal (some salt) none password plaintext s h = cc
  open-seal (some salted) (some iv) password plaintext s h =
      with_key salted iv plaintext password s _ refl h

  module _ (verifies : Verifies x) (decodes : Decodes x) where
    -- An unlock cookie for a key of 32 bytes yields that key while it lasts, where the libraries
    -- verify what they signed and decode what they encoded.
    pub verify_unlock-sign_unlock :
        (signed_at now : ℕ) (id : Text) (key : Bytes) (token : Text)
        → sign_unlock x signed_at id key ≡ some token
        → length key ≡ key_len
        → now < signed_at + unlock_ttl_secs
        → verify_unlock x now id token ≡ some key
    unfolding sign_unlock verify_unlock
    verify_unlock-sign_unlock signed_at now id key token signed sized fresh =
        rw (verifies _ token signed, text_eq_refl id, not_leb fresh, decodes key, sized)
      where
        not_leb : {a b : ℕ} → a < b → leb b a ≡ false
        not_leb {a = a} {b = b} h = ground arith

    -- A body of valid characters, sealed under a password, reads as it was written, for a cookie
    -- that an unlock with a 32-byte key signed and that has not expired, unless the paste burns
    -- and this is no reveal. The libraries open what they sealed, verify what they signed and
    -- decode what they encoded.
    pub resolve_body-seal :
        (salt nonce : Option Bytes) (password content : Text) (s : Sealed) (paste : Paste)
        (key : Bytes) (cookies : List (Text × Text)) (token : Text) (signed_at now : ℕ)
        (for_reveal : Bool)
        → seal x salt nonce password (encode content) ≡ some s
        → all is_scalar content ≡ true
        → paste.content ≡ s.ciphertext
        → paste.enc_nonce ≡ some s.nonce
        → is_encrypted paste ≡ true
        → open_and_keep_key x password s.salt s.nonce s.ciphertext ≡ some (key, encode content)
        → length key ≡ key_len
        → sign_unlock x signed_at paste.id key ≡ some token
        → unlock_cookie cookies paste.id ≡ some token
        → now < signed_at + unlock_ttl_secs
        → (paste.burn_after_read && not for_reveal) ≡ false
        → resolve_body x now paste cookies for_reveal ≡ plain content
    unfolding resolve_body
    resolve_body-seal salt nonce password content s paste key cookies token signed_at now for_reveal
          sealing scalars stored nonced encrypted opening sized signed cookie fresh revealed =
        let (k, o₁, o₂) = open-seal salt nonce password (encode content) s sealing in
        let same : k ≡ key = ap (λ p. p.0) (some_inj (sym o₁ ∙ opening)) in
        let o₃ : open_with_key x key s.nonce s.ciphertext ≡ some (encode content) =
          subst (λ j. open_with_key x j s.nonce s.ciphertext ≡ some (encode content)) same o₂ in
        rw (revealed, encrypted)
          (unlocked_lem x now paste s.nonce token key content _ _ nonced cookie
            (verify_unlock-sign_unlock signed_at now paste.id key token signed sized fresh)
            (ap (open_with_key x key s.nonce) stored ∙ o₃) scalars)
