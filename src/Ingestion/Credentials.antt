-- ===== src/Ingestion/Credentials.antt =====
-- The credentials of collectors: create_collector_credential, revoke_collector_credential and
-- collector_can_ingest of modules/ingestion/public.py. The token that `secrets` draws is an argument.
use bbd_os.Prelude.{
  ℕ, ◌≡◌, refl, String, none, some, Bool, false, List, [], ◌∷◌, ◌++◌, ◌&&◌, ◌||◌, not, ◌==◌, arith,
  lookup_error, integrity_error, Result, ok, ◌>>=◌, ◌>>◌, guard, require, find, is_none, str_eq,
  update_where, Option-cases, inl, inr,
}
use bbd_os.Database.{Db, Source, Credential, get_source, is_active, is_archived}
use bbd_os.Sources.{archive_source, revoke_all}
use bbd_os.Sources.Fence.{SourceRequest, archive_source-archived, serve, serve-Evolves}
use bbd_os.Ingestion.{Hashes}

abbrev pub new_credential : String → ℕ → ℕ → Credential
new_credential token_hash source_id now = record {
  token_hash = token_hash;
  source_id = source_id;
  scope = "ingestion:write";
  created_at = now;
  revoked_at = none;
}

-- A second row with the same hash violates the primary key.
unfoldable pub create_collector_credential : Hashes → Db → ℕ → String → ℕ → Result (String × Db)
create_collector_credential h db source_id token now = do
  source ← require (get_source db source_id) lookup_error
  guard (not (is_archived source.status)) lookup_error
  guard (is_none (find (λ c. str_eq c.token_hash (h.text token)) db.credentials)) integrity_error
  ok (
    token,
    record db {
      credentials =
          revoke_all source_id now db.credentials
          ++ new_credential (h.text token) source_id now ∷ [];
    },
  )

unfoldable pub revoke_collector_credential : Hashes → Db → String → ℕ → Db
revoke_collector_credential h db token now = record db {
  credentials =
      update_where (λ c. str_eq c.token_hash (h.text token))
        (λ c. record c { revoked_at = some now }) db.credentials;
}

-- A credential that is not revoked, of the source and with this hash.
abbrev usable : ℕ → String → Credential → Bool
usable source_id token_hash c =
    str_eq c.token_hash token_hash
    && c.source_id == source_id
    && str_eq c.scope "ingestion:write"
    && is_none c.revoked_at

any_usable : ℕ → String → List Credential → Bool
any_usable source_id token_hash [] = false
any_usable source_id token_hash (c ∷ l) =
    usable source_id token_hash c || any_usable source_id token_hash l

unfoldable pub collector_can_ingest : Hashes → Db → ℕ → String → Bool
unfolding any_usable
collector_can_ingest h db source_id token = elim (get_source db source_id) [
  | none ↦ false
  | some source ↦ is_active source.status && any_usable source_id (h.text token) db.credentials
]

any_usable-append :
    (sid : ℕ) (hash : String) (l : List Credential) (c : Credential)
    → any_usable sid hash (l ++ c ∷ []) ≡ (any_usable sid hash l || usable sid hash c)
unfolding any_usable
any_usable-append sid hash [] c = ground arith
any_usable-append sid hash (x ∷ l) c = ground (arith, any_usable-append sid hash l c)

any_usable-revoke_all :
    (sid now : ℕ) (hash : String) (l : List Credential)
    → any_usable sid hash (revoke_all sid now l) ≡ false
unfolding any_usable revoke_all update_where
any_usable-revoke_all sid now hash [] = refl
any_usable-revoke_all sid now hash (c ∷ l) = ground (arith, any_usable-revoke_all sid now hash l)

any_usable-revoke :
    (sid now : ℕ) (hash : String) (l : List Credential)
    → any_usable sid hash
        (update_where (λ c. str_eq c.token_hash hash) (λ c. record c { revoked_at = some now }) l)
      ≡ false
unfolding any_usable update_where
any_usable-revoke sid now hash [] = refl
any_usable-revoke sid now hash (c ∷ l) = ground (arith, any_usable-revoke sid now hash l)

can_ingest_inactive :
    (h : Hashes) (db : Db) (sid : ℕ) (token : String) (source : Source)
    → get_source db sid ≡ some source
    → is_active source.status ≡ false
    → collector_can_ingest h db sid token ≡ false
unfolding collector_can_ingest
can_ingest_inactive h db sid token source listed stopped = ground arith

-- After a credential was issued for a source, a token may ingest into the source exactly if the
-- source is active and the token has the hash of the one just issued: every earlier token of the
-- source stopped working.
pub create_collector_credential_rotates :
    (h : Hashes) (db : Db) (source_id : ℕ) (token other issued : String) (now : ℕ) (source : Source)
    (db' : Db)
    → get_source db source_id ≡ some source
    → create_collector_credential h db source_id token now ≡ ok (issued, db')
    → collector_can_ingest h db' source_id other
      ≡ (is_active source.status && str_eq (h.text token) (h.text other))
unfolding create_collector_credential collector_can_ingest
create_collector_credential_rotates h db source_id token other issued now source db' listed e =
    let created = new_credential (h.text token) source_id now in
    ground (
      arith,
      any_usable-append source_id (h.text other) (revoke_all source_id now db.credentials) created,
      any_usable-revoke_all source_id now (h.text other) db.credentials,
    )

-- A revoked token may ingest into no source.
pub revoke_collector_credential_lem :
    (h : Hashes) (db : Db) (token : String) (now source_id : ℕ)
    → collector_can_ingest h (revoke_collector_credential h db token now) source_id token ≡ false
unfolding revoke_collector_credential collector_can_ingest
revoke_collector_credential_lem h db token now source_id =
    elim (Option-cases (get_source db source_id)) [
      | inl missing ↦ rw (missing, collector_can_ingest)
      | inr (s, found) ↦
          rw (found, collector_can_ingest)
            (ground (arith, any_usable-revoke source_id now (h.text token) db.credentials))
    ]

-- Once a source was archived, no token may ingest into it, whatever requests for sources follow.
pub archive_source_stops_collectors :
    (h : Hashes) (db : Db) (source_id : ℕ) (now : ℕ) (source : Source)
    (requests : List (SourceRequest × ℕ)) (token : String)
    → get_source db source_id ≡ some source
    → collector_can_ingest h (serve (archive_source db source_id now).1 requests) source_id token
      ≡ false
archive_source_stops_collectors h db source_id now source requests token listed =
    let (s, found, archived) = archive_source-archived db source_id now source listed in
    let (s', found', later) =
      serve-Evolves (archive_source db source_id now).1 requests source_id s found in
    can_ingest_inactive h (serve (archive_source db source_id now).1 requests) source_id token s'
      found' (ground (arith, later.terminal archived))
