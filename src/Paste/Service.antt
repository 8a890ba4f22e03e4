-- ===== src/Paste/Service.antt =====
-- src/site/paste/service.rs: the operations on pastes. What the surroundings supply is in `Env`:
-- the clock, the random ids and tokens, and for the n-th statement of an operation whether the
-- database answers it. The audit entries are kept without their JSON details.
pub mod Create
pub mod Modify
pub mod Read
pub mod Reaper
pub mod Invariant
pub mod Runs
use klappstuhl_me.Prelude.{ℕ, ◌+◌, Bool, Option, none, some}
use klappstuhl_me.Prelude.Int.{ℤ}
use klappstuhl_me.Text.{Text, Bytes}
use klappstuhl_me.Paste.Row.{Paste, Visibility}

pub record PasteConfig : Type 0 where
  pub anonymous : Bool
  pub max_bytes : ℕ
  pub anonymous_max_bytes : ℕ
  pub anonymous_ttl_days : ℤ
  pub account_limit : ℕ
  pub account_max_total_bytes : ℕ

pub record Env : Type 0 where
  pub now : ℕ
  pub fresh_id : Text
  pub fresh_token : Text
  pub random_salt : Option Bytes
  pub random_nonce : Option Bytes
  pub up : ℕ → Bool

-- The surroundings after the first `n` statements.
abbrev pub later : ℕ → Env → Env
later n env = record env { up = λ k. env.up (n + k) }

pub record NewPaste : Type 0 where
  pub content : Text
  pub title : Option Text
  pub language : Option Text
  pub visibility : Visibility
  pub burn_after_read : Bool
  pub password : Option Text
  pub expires_in : Option ℤ
  pub fork_of : Option Text
  pub confirm_secrets : Bool

pub record EditPaste : Type 0 where
  pub content : Text
  pub title : Option Text
  pub language : Option Text
  pub visibility : Option Visibility
  pub expires_in : Option ℤ
  pub password : Option Text
  pub confirm_secrets : Bool

pub record Created : Type 0 where
  pub paste : Paste
  pub edit_token : Option Text
