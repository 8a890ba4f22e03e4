-- ===== src/Totp/Secrets.antt =====
-- The stored secret opens again.
use klappstuhl_me.Prelude.{
  ◌+◌, ◌≤◌, ◌≡◌, refl, sym, ap, ◌∙◌, some, ◌++◌, ltb, length, take, drop, length-append,
  take-append, drop-append, some_inj, Option-cases, inl, inr, false, arith,
}
use klappstuhl_me.Text.{Text, Bytes}
use klappstuhl_me.Totp.{TotpLib, nonce_len, tag_len, encrypt_secret, decrypt_secret, open_blob}

-- Base64 text decodes to what was encoded, and what was sealed opens, under the same nonce; a sealed
-- text is longer than the plain one by a tag.
abbrev pub Decodes : TotpLib → Type 0
Decodes x = (bytes : Bytes) → x.decode64 (x.encode64 bytes) ≡ some bytes

abbrev pub Opens : TotpLib → Type 0
Opens x =
    (nonce plain sealed : Bytes)
    → x.encrypt nonce plain ≡ some sealed
    → x.decrypt nonce sealed ≡ some plain

abbrev pub Tags : TotpLib → Type 0
Tags x =
    (nonce plain sealed : Bytes)
    → x.encrypt nonce plain ≡ some sealed
    → length sealed ≡ length plain + tag_len

module _ (x : TotpLib) where
  long_enough :
      (nonce sealed : Bytes)
      → length nonce ≡ nonce_len
      → tag_len ≤ length sealed
      → ltb (length (nonce ++ sealed)) (nonce_len + tag_len) ≡ false
  long_enough nonce sealed h k = ap (λ n. ltb n 28) (length-append nonce sealed) ∙ ground arith

  open_blob-append :
      (nonce sealed : Bytes)
      → length nonce ≡ nonce_len
      → tag_len ≤ length sealed
      → open_blob x (nonce ++ sealed) ≡ x.decrypt nonce sealed
  open_blob-append nonce sealed h k =
      let front : take nonce_len (nonce ++ sealed) ≡ nonce =
        ap (λ n. take n (nonce ++ sealed)) (sym h) ∙ take-append nonce sealed in
      let back : drop nonce_len (nonce ++ sealed) ≡ sealed =
        ap (λ n. drop n (nonce ++ sealed)) (sym h) ∙ drop-append nonce sealed in
      rw (long_enough nonce sealed h k, front, back) refl

  -- A secret that was encrypted under a fresh nonce of 12 bytes decrypts to itself.
  pub decrypt_secret-encrypt_secret :
      (nonce secret : Bytes) (stored : Text)
      → Decodes x
      → Opens x
      → Tags x
      → length nonce ≡ nonce_len
      → encrypt_secret x (some nonce) secret ≡ some stored
      → decrypt_secret x stored ≡ some secret
  unfolding decrypt_secret encrypt_secret
  decrypt_secret-encrypt_secret nonce secret stored decodes opens tags h e =
      elim (Option-cases (x.encrypt nonce secret)) [
        | inl failed ↦ cc (rw failed at e)
        | inr (sealed, done) ↦
            let text : x.encode64 (nonce ++ sealed) ≡ stored = some_inj (rw done at e) in
            let blob : x.decode64 stored ≡ some (nonce ++ sealed) =
              rw (← text) (decodes (nonce ++ sealed)) in
            rw blob (
              open_blob-append nonce sealed h (omega (arith, tags nonce secret sealed done))
              ∙ opens nonce secret sealed done)
      ]
