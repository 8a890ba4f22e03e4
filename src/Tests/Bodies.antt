-- ===== src/Tests/Bodies.antt =====
-- Examples on sealed bodies, unlock cookies and the stored visibility.
use klappstuhl_me.Prelude.{◌≡◌, refl, false, some, List, [], ◌∷◌, ◌++◌, take, replicate, arith}
use klappstuhl_me.Text.{Text, Bytes, codes, text_eq, encode}
use klappstuhl_me.Paste.Row.{private, parse, as_str, parse-as_str, is_encrypted}
use klappstuhl_me.Paste.Crypto.{Sealed, seal, open_and_keep_key, sign_unlock, seal_with_key}
use klappstuhl_me.Paste.Body.{plain, resolve_body, unlock_cookie, cookie_name}
use klappstuhl_me.Paste.Body.RoundTrip.{resolve_body-seal}
use klappstuhl_me.Tests.{toy, toy-Opens, toy-Verifies, toy-Decodes, sealed_paste}

abbrev sealed_hello : Sealed
sealed_hello = record { ciphertext = 1 ∷ codes "hello"; salt = 5 ∷ []; nonce = 6 ∷ [] }

-- The toy key of the password "pw".
abbrev toy_key : Bytes
toy_key = take 32 (codes "pw" ++ 5 ∷ replicate 32 0)

abbrev cookies : List (Text × Text)
cookies = (codes "paste_unlock_pp", 2800 ∷ toy_key) ∷ []

resolve_body-seal_example : resolve_body toy 1500 sealed_paste cookies false ≡ plain (codes "hello")
unfolding seal seal_with_key is_encrypted open_and_keep_key sign_unlock unlock_cookie encode text_eq
    cookie_name
resolve_body-seal_example =
    resolve_body-seal toy toy-Opens toy-Verifies toy-Decodes (some (5 ∷ [])) (some (6 ∷ []))
      (codes "pw") (codes "hello") sealed_hello sealed_paste toy_key cookies (2800 ∷ toy_key) 1000
      1500 false refl refl refl refl refl refl refl refl refl (omega arith) refl

parse-as_str_example : parse (as_str private) ≡ private
parse-as_str_example = parse-as_str private
