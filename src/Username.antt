-- ===== src/Username.antt =====
-- src/site/account/username.rs: who holds a name. The
-- tables are the columns that these read; times are in seconds.
pub mod Claims
pub mod Holds
pub mod Protection
pub mod SignUp
use klappstuhl_me.Prelude.{
  ℕ, suc, ◌+◌, ◌*◌, Bool, true, false, not, ◌&&◌, ◌||◌, Option, none, some, List, [], ◌∷◌, map,
  if◌then◌else◌, ltb, leb, ◌==◌, any, find,
}
use klappstuhl_me.Text.{Text, Bytes, codes, text_eq, trim, byte_len}
use klappstuhl_me.Account.{Account, is_valid_username, has_password}

abbrev day : ℕ
day = 24 * 60 * 60

abbrev pub cooldown_secs : ℕ
cooldown_secs = 30 * day

abbrev pub release_hold_secs : ℕ
release_hold_secs = 30 * day

abbrev reserved_names : List Text
reserved_names =
    codes "percy-service"
    ∷ codes "system"
    ∷ codes "scheduler"
    ∷ codes "anonymous"
    ∷ codes "percy"
    ∷ codes "admin"
    ∷ codes "moderator"
    ∷ codes "owner"
    ∷ []

pub data Rejection : Type 0 where
  invalid : Rejection
  reserved : Rejection
  unchanged : Rejection
  taken : Rejection
  held : Rejection
  cooldown : ℕ → Rejection

pub record UsernameChange : Type 0 where
  pub account_id : ℕ
  pub old_name : Text
  pub new_name : Text
  pub changed_at : ℕ

pub record Names : Type 0 where
  pub accounts : List Account
  pub changes : List UsernameChange

-- A row of `username_change` names this account, and it is the one that takes `name`.
pub data Outcome : Type 0 where
  database_error : Outcome
  rejected : Rejection → Outcome
  renamed : Text → Outcome

unfoldable pub is_reserved : Text → Bool
is_reserved name = any (text_eq name) reserved_names

unfoldable pub static_check : Text → Option Rejection
static_check name =
    if not (is_valid_username name)
    then some invalid
    else if is_reserved name
    then some reserved
    else none

abbrev pub account_of : ℕ → List Account → Option Account
account_of id accounts = find (λ (a : Account). a.id == id) accounts

abbrev pub has_name : Text → Account → Bool
has_name name a = text_eq a.name name

abbrev pub newer : UsernameChange → Option UsernameChange → Option UsernameChange
newer c none = some c
newer c (some d) = if ltb c.changed_at d.changed_at then some d else some c

-- `… ORDER BY changed_at DESC LIMIT 1`.
unfoldable pub latest : (UsernameChange → Bool) → List UsernameChange → Option UsernameChange
latest p [] = none
latest p (c ∷ cs) = let rest = latest p cs in if p c then newer c rest else rest

abbrev pub is_change_of : ℕ → UsernameChange → Bool
is_change_of id c = c.account_id == id

-- `old_name = ? AND changed_at > now - 30 days`.
abbrev pub releases : ℕ → Text → UsernameChange → Bool
releases now name c = text_eq c.old_name name && ltb now (c.changed_at + release_hold_secs)

abbrev pub held_by_other : ℕ → Option UsernameChange → Bool
held_by_other id none = false
held_by_other id (some c) = not (c.account_id == id)

-- The name was released by somebody else, lately.
unfoldable pub is_held : ℕ → ℕ → Text → Names → Bool
unfolding latest
is_held now id name n = held_by_other id (latest (releases now name) n.changes)

abbrev running : ℕ → Option UsernameChange → Option ℕ
running now none = none
running now (some c) =
    if ltb now (c.changed_at + cooldown_secs) then some (c.changed_at + cooldown_secs) else none

unfoldable pub cooldown_until : ℕ → ℕ → Names → Option ℕ
unfolding latest
cooldown_until now id n = running now (latest (is_change_of id) n.changes)

-- The UNIQUE index on `account.name` refuses the update.
abbrev pub is_taken : ℕ → Text → List Account → Bool
is_taken id name accounts = any (λ a. has_name name a && not (a.id == id)) accounts

abbrev pub with_name : ℕ → Text → List Account → List Account
with_name id name accounts = map (λ a. if a.id == id then record a { name = name } else a) accounts

-- The update with its row of history: one transaction.
abbrev pub renaming : ℕ → ℕ → Text → Text → Names → Names
renaming now id old_name new_name n = record {
  accounts = with_name id new_name n.accounts;
  changes =
      record { account_id = id; old_name = old_name; new_name = new_name; changed_at = now }
      ∷ n.changes;
}

abbrev claim_after_cooldown : ℕ → ℕ → Text → Text → Names → Option ℕ → Names × Outcome
claim_after_cooldown now id old_name new_name n (some until) = (n, rejected (cooldown until))
claim_after_cooldown now id old_name new_name n none =
    if is_held now id new_name n
    then (n, rejected held)
    else if is_taken id new_name n.accounts
    then (n, rejected taken)
    else (renaming now id old_name new_name n, renamed old_name)

abbrev claim_from : ℕ → ℕ → Text → Names → Option Account → Names × Outcome
claim_from now id new_name n none = (n, database_error)
claim_from now id new_name n (some a) =
    if text_eq a.name new_name
    then (n, rejected unchanged)
    else claim_after_cooldown now id a.name new_name n (cooldown_until now id n)

-- A transaction that fails leaves the tables as they were.
unfoldable pub claim : Bool → ℕ → ℕ → Text → Names → Names × Outcome
claim database_up now id new_name n =
    if database_up
    then claim_from now id new_name n (account_of id n.accounts)
    else (n, database_error)

abbrev self_id : Option Account → ℕ → Bool
self_id none id = false
self_id (some a) id = a.id == id

abbrev is_own_name : Option Account → Text → Bool
is_own_name none name = false
is_own_name (some a) name = text_eq a.name name

abbrev pub held_from : Option Account → Option UsernameChange → Bool
held_from account none = false
held_from account (some c) = not (self_id account c.account_id)

abbrev or_else_check : Option Rejection → Option Rejection → Option Rejection
or_else_check none rest = rest
or_else_check (some r) rest = some r

-- The hint; `none` says that the name is free.
unfoldable pub availability : Bool → ℕ → Text → Option Account → Names → Option Rejection
unfolding latest
availability database_up now name account n = or_else_check (static_check name) (
    if is_own_name account name
    then some unchanged
    else if not database_up || any (has_name name) n.accounts
    then some taken
    else if held_from account (latest (releases now name) n.changes)
    then some held
    else none)

-- `change_username`: the checks of the handler, then `claim`. Whether a password fits a hash is the
-- library's.
pub data Change : Type 0 where
  refused : Rejection → Change
  not_loaded : Change
  bad_password : Change
  claimed : Outcome → Change

module _ (validate_password : Text → Text → Bool) where
  abbrev claim_as : Bool → ℕ → Text → Text → Names → Option Account → Names × Change
  claim_as database_up now name password n none = (n, not_loaded)
  claim_as database_up now name password n (some full) =
      if has_password full && not (validate_password password full.password)
      then (n, bad_password)
      else (let r = claim database_up now full.id name n in (r.0, claimed r.1))

  abbrev screened : Option Rejection → Names → Names × Change → Names × Change
  screened none n rest = rest
  screened (some r) n rest = (n, refused r)

  -- The account is loaded by one statement, and the claim is another.
  unfoldable pub change_username : (ℕ → Bool) → ℕ → ℕ → Text → Text → Names → Names × Change
  change_username up now id username password n = screened (static_check (trim username)) n (
      claim_as (up 1) now (trim username) password n
        (if up 0 then account_of id n.accounts else none))
