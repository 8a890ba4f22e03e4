-- ===== src/Tests/Deletion.antt =====
-- Examples on the deletion of an account.
use klappstuhl_me.Prelude.{◌≡◌, refl, true, false, some, [], ◌∷◌, any}
use klappstuhl_me.Text.{codes}
use klappstuhl_me.Account.{Account, is_admin}
use klappstuhl_me.Sessions.{info_of, is_session_valid}
use klappstuhl_me.Deletion.{
  DeleteAccountForm, username_mismatch, Estate, purge_account, delete_account,
}
use klappstuhl_me.Deletion.Guards.{
  Deleted, delete_account-Deleted, Untouched, delete_account-Untouched,
}
use klappstuhl_me.Deletion.Cascade.{Gone, purge_account-Gone}
use klappstuhl_me.Deletion.Remains.{delete_account-stays_valid, delete_account-admin_left}
use klappstuhl_me.Tests.{alice, tables}
use klappstuhl_me.Tests.Site.{toy_site, dora, dora_key, quiet, request}

-- Two administrators; the key of one is cached.
abbrev chief : Account
chief = record dora { flags = 1 }

abbrev estate : Estate toy_site
estate = record {
  app = record quiet {
    store = record quiet.store {
      accounts = chief ∷ record alice { flags = 1 } ∷ [];
      valid_sessions = λ k. some (info_of dora_key);
    };
  };
  pastes = tables;
  links =
      record { id = 1; code = codes "x"; target_url = codes "y"; account_id = 3; clicks = 0 } ∷ [];
  images = record { id = codes "i"; uploader_id = some 3; size = 5 } ∷ [];
}

abbrev wanted : DeleteAccountForm
wanted = record {
  username = codes "dora";
  password = codes "password";
  code = [];
  delete_images = false;
}

abbrev after : Estate toy_site
after = (delete_account toy_site request (codes "d1") chief wanted estate).0

delete_account-Deleted_example : Deleted toy_site request (codes "d1") chief wanted estate after
unfolding delete_account klappstuhl_me.Account.has_password klappstuhl_me.Account.has_totp
delete_account-Deleted_example =
    delete_account-Deleted toy_site request (codes "d1") chief wanted estate after refl

delete_account-Untouched_example :
    Untouched toy_site estate
      (delete_account toy_site request
        (codes "d1")
        chief
        (record wanted { username = codes "bob" })
        estate).0
unfolding delete_account
delete_account-Untouched_example =
    delete_account-Untouched toy_site request (codes "d1") chief
      (record wanted { username = codes "bob" }) estate username_mismatch refl

purge_account-Gone_example : Gone toy_site 3 (purge_account toy_site 3 false estate)
purge_account-Gone_example = purge_account-Gone toy_site 3 false estate

delete_account-stays_valid_example :
    (is_session_valid toy_site.sessions toy_site.users toy_site.max_token_age true 9000
      (codes "d2")
      after.app.store).1
    ≡ some (info_of dora_key)
unfolding delete_account klappstuhl_me.Account.has_password klappstuhl_me.Account.has_totp
    klappstuhl_me.Sessions.is_expired
delete_account-stays_valid_example =
    delete_account-stays_valid toy_site request (codes "d1") chief wanted estate after (codes "d2")
      (info_of dora_key) true 9000 refl refl refl

delete_account-admin_left_example : any is_admin after.app.store.accounts ≡ true
unfolding delete_account klappstuhl_me.Account.has_password klappstuhl_me.Account.has_totp
delete_account-admin_left_example =
    delete_account-admin_left toy_site request (codes "d1") chief wanted estate after
      (refl, (refl, tt)) refl refl refl
