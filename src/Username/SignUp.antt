-- ===== src/Username/SignUp.antt =====
-- `signup_submit` of src/site/account/auth.rs, up to the session.
use klappstuhl_me.Prelude.{
  ℕ, ◌≡◌, Bool, true, false, not, ◌&&◌, Option, none, some, ◌∷◌, if◌then◌else◌, leb, any,
}
use klappstuhl_me.Text.{Text, byte_len}
use klappstuhl_me.Account.{Account, is_valid_username}
use klappstuhl_me.Username.{Names, has_name}

pub data SignedUp : Type 0 where
  bad_username : SignedUp
  bad_length : SignedUp
  hash_failed : SignedUp
  name_taken : SignedUp
  insert_failed : SignedUp
  created : ℕ → SignedUp

abbrev new_account : ℕ → Text → Text → Account
new_account id name password = record {
  id = id;
  name = name;
  password = password;
  flags = 0;
  totp_secret = none;
  totp_enabled = false;
  discord_id = none;
}

abbrev insert_account : Bool → ℕ → Text → Names → Option Text → Names × SignedUp
insert_account database_up id name n none = (n, hash_failed)
insert_account database_up id name n (some hash) =
    if not database_up
    then (n, insert_failed)
    else if any (has_name name) n.accounts
    then (n, name_taken)
    else (record n { accounts = new_account id name hash ∷ n.accounts }, created id)

-- `signup_submit` up to the session; `id` is the row id that the database gives.
unfoldable pub signup_submit :
    (Text → Option Text) → Bool → ℕ → Text → Text → Names → Names × SignedUp
signup_submit hash_password database_up id username password n =
    if not (is_valid_username username)
    then (n, bad_username)
    else if not (leb 8 (byte_len password) && leb (byte_len password) 128)
    then (n, bad_length)
    else insert_account database_up id username n (hash_password password)

-- With a database that answers and a password that can be hashed, the sign-up gives any valid name
-- that no account has, with a password of 8 to 128 bytes: neither the reserved names nor the hold
-- on a released one are asked.
signup_submit-ignores_holds :
    (hash_password : Text → Option Text) (id : ℕ) (username password hash : Text) (n : Names)
    → is_valid_username username ≡ true
    → (leb 8 (byte_len password) && leb (byte_len password) 128) ≡ true
    → hash_password password ≡ some hash
    → any (has_name username) n.accounts ≡ false
    → signup_submit hash_password true id username password n
      ≡ (record n { accounts = new_account id username hash ∷ n.accounts }, created id)
unfolding signup_submit
signup_submit-ignores_holds hash_password id username password hash n valid fit hashed free =
    rw (valid, fit, hashed, free)
