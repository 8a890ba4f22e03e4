-- ===== src/Paste/Error.antt =====
-- `PasteError` of src/site/paste/service.rs, and results.
use klappstuhl_me.Prelude.{ℕ, ◌≡◌, refl, Bool, true, false, List, Option, none, some}
use klappstuhl_me.Text.{Text}

pub data PasteError : Type 0 where
  empty : PasteError
  too_large : ℕ → PasteError
  title_too_long : PasteError
  anonymous_disabled : PasteError
  quota_count : ℕ → PasteError
  quota_bytes : ℕ → PasteError
  secrets_found : List Text → PasteError
  secrets_refused : List Text → PasteError
  not_found : PasteError
  bad_password : PasteError
  crypto : PasteError
  db : PasteError

-- The source's `Result<A, PasteError>`.
pub data Result {ℓ} (Value : Type ℓ) : Type ℓ where
  err : PasteError → Result Value
  ok : Value → Result Value

-- `?` on a result.
infixl 5 ◌>>=◌
abbrev pub ◌>>=◌ {ℓ κ} :
    {Value : Type ℓ} {Next : Type κ} (first : Result Value) (next : Value → Result Next)
    → Result Next
err problem >>= next = err problem
ok value >>= next = next value

-- `?` on a result without a value.
infixl 5 ◌>>◌
abbrev pub ◌>>◌ {ℓ} : {Next : Type ℓ} (check : Result (Unit {0})) (rest : Result Next) → Result Next
err problem >> rest = err problem
ok done >> rest = rest

-- `if refused { return Err(e) }`.
abbrev pub refuse : Bool → PasteError → Result (Unit {0})
refuse true e = err e
refuse false e = ok tt

-- `o.ok_or(e)?`.
abbrev pub ok_or {ℓ} : {A : Type ℓ} → Option A → PasteError → Result A
ok_or none e = err e
ok_or (some a) e = ok a

-- What comes out of a chain came out of its first step.
pub >>=-ok {ℓ κ} :
    {Value : Type ℓ} {Next : Type κ} (first : Result Value) (next : Value → Result Next)
    {out : Next}
    → (first >>= next) ≡ ok out
    → (value : Value) × (first ≡ ok value) × (next value ≡ ok out)
>>=-ok (err problem) next passed = cc
>>=-ok (ok value) next passed = (value, refl, passed)

pub >>-ok {ℓ} :
    {Next : Type ℓ} (check : Result (Unit {0})) (rest : Result Next) {out : Next}
    → (check >> rest) ≡ ok out
    → (check ≡ ok tt) × (rest ≡ ok out)
>>-ok (err problem) rest passed = (cc, cc)
>>-ok (ok done) rest passed = (refl, passed)

pub refuse-eq-ok : (b : Bool) (e : PasteError) → refuse b e ≡ ok tt → b ≡ false
refuse-eq-ok true e h = cc
refuse-eq-ok false e h = refl

pub ok_inj {ℓ} : {A : Type ℓ} {a b : A} → ok a ≡ ok b → a ≡ b
ok_inj h = cc

pub ok_or-eq-ok {ℓ} :
    {A : Type ℓ} (o : Option A) (e : PasteError) {a : A} → ok_or o e ≡ ok a → o ≡ some a
ok_or-eq-ok none e h = cc
ok_or-eq-ok (some b) e h = cc
