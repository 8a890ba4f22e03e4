-- ===== src/ApiToken/Renaming.antt =====
-- A renamed session: whose description changes.
use klappstuhl_me.Prelude.{
  ℕ, ◌≡◌, ap, true, false, ◌||◌, and_right, Option, none, some, List, [], ◌∷◌, map, ◌==◌,
  Bool-cases, inl, inr, some_inj, any, ltb,
}
use klappstuhl_me.Text.{Text, is_empty, trim, byte_len}
use klappstuhl_me.Scope.{Session}
use klappstuhl_me.Sessions.{session_row, has_session_id}
use klappstuhl_me.Site.{Site, Request, AppState}
use klappstuhl_me.ApiToken.{own_token, is_row_of, describe, rename, rename_session}

module _ (site : Site) where
  module _ (from_signed : Text → Option (ℕ × Text)) where
    others_kept :
        (session description : Text) (id : ℕ) (j : Text) (rows : List Session) (row : Session)
        → session_row j rows ≡ some row
        → (row.account_id == id) ≡ false
        → session_row j (map (describe site from_signed session id description) rows) ≡ some row
    others_kept session description id j [] row h k = cc
    others_kept session description id j (s ∷ rows) row h k =
        elim (Bool-cases (is_row_of site from_signed session id s)) [
          | inr plain ↦ elim (Bool-cases (has_session_id j s)) [
            | inl hit ↦ rw (plain, hit) (rw hit at h)
            | inr miss ↦
                rw (plain, miss) (others_kept session description id j rows row (rw miss at h) k)
          ]
          | inl own ↦ elim (Bool-cases (has_session_id j s)) [
            | inr miss ↦
                rw (own, miss) (others_kept session description id j rows row (rw miss at h) k)
            | inl hit ↦
                let same : s ≡ row = some_inj (rw hit at h) in
                let mine : (s.account_id == id) ≡ true =
                  and_right (has_session_id session s) _ own in
                cc (mine, ap (λ (r : Session). r.account_id == id) same, k)
          ]
        ]

    -- A renaming, done or refused, leaves the sessions of every other account as they are.
    pub rename_session-others :
        (req : Request) (id : ℕ) (signed description : Text) (st : AppState site) (j : Text)
        (row : Session)
        → session_row j st.store.rows ≡ some row
        → (row.account_id == id) ≡ false
        → session_row j (rename_session site from_signed req id signed description st).0.store.rows
          ≡ some row
    unfolding rename_session
    rename_session-others req id signed description st j row h k =
        elim (Bool-cases (is_empty (trim description) || ltb 100 (byte_len (trim description)))) [
          | inl bad ↦ rw bad h
          | inr good ↦ rw good (renamed (own_token site from_signed id (from_signed signed)))
        ]
      where
        renamed :
            (o : Option Text)
            → session_row j (rename site from_signed req id (trim description) o st).0.store.rows
              ≡ some row
        renamed none = h
        renamed (some session) = elim (Bool-cases (req.up 0)) [
          | inr down ↦ rw down h
          | inl up ↦ elim (Bool-cases (any (is_row_of site from_signed session id) st.store.rows)) [
            | inr missing ↦ rw (up, missing) h
            | inl there ↦
                rw (up, there) (others_kept session (trim description) id j st.store.rows row h k)
          ]
        ]
