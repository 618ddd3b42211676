-- ===== src/Ingestion/Files/Uploaded.antt =====
-- A file that is uploaded twice is stored once.
use bbd_os.Prelude.{
  ℕ, ◌≡◌, refl, arith, none, some, Bool, true, false, List, [], ◌∷◌, ◌++◌, str_eq, eq_refl, find,
  find-append, any, http, integrity_error, ok, err, >>=-ok, guard, require, row-key, row-put_self,
}
use bbd_os.Database.{Db, Source, Batch, Run, Document, get_source, is_active}
use bbd_os.Documents.{
  add_uploaded_document, has_document_identity, has_identity, lock_source_for_document, is_new,
  first_version,
}
use bbd_os.Ingestion.{NewIds, is_batch, is_run_of, new_batch, new_run, touch, source_inactive}
use bbd_os.Ingestion.Files.{
  Uploads, UploadedFile, file_key, document_of, file_rows, file_new, file_again, file_active,
  receive_file,
}

any_last :
    (p : Document → Bool) (l : List Document) (d : Document)
    → p d ≡ true
    → any p (l ++ d ∷ []) ≡ true
any_last p [] d h = ground arith
any_last p (x ∷ l) d h = ground (arith, any_last p l d h)

module _ (u : Uploads) (db : Db) (source_id : ℕ) (f : UploadedFile) (ids : NewIds)
    (version_id now : ℕ) (run : Run) (db' : Db) where
  -- The upload was new, and its rows were stored.
  record IsStored : Type 0 where
    source : Source
    listed : get_source db' source_id ≡ some (touch now source)
    active : is_active source.status ≡ true
    batch :
        find (is_batch source_id (file_key f.digest)) db'.batches
        ≡ some (new_batch ids.batch_id source_id (file_key f.digest) f.digest now)
    identity : has_document_identity db' source_id (file_key f.digest) ≡ true
    same_run : run ≡ new_run ids.run_id ids.batch_id source_id now
    runs : db'.runs ≡ db.runs ++ run ∷ []

  after_upload : Source → Db
  unfolding file_rows
  after_upload source =
      let rows = file_rows db source source_id f ids now in
      record rows {
        documents = db.documents ++ document_of u source_id f now ∷ [];
        versions =
            db.versions
            ++ first_version version_id f.document_id "" (u.content.content_hash "") now ∷ [];
      }

  stored :
      (new : Bool)
      → find (is_batch source_id (file_key f.digest)) db.batches ≡ none
      → receive_file u db source_id f ids version_id now ≡ ok (run, new, db')
      → IsStored
  unfolding receive_file file_new file_rows add_uploaded_document document_of has_document_identity
      after_upload
  stored new unused e =
      let (_, locked, e₁) = >>=-ok (lock_source_for_document db source_id) _ e in
      let (source, listed, e₂) = >>=-ok (require (get_source db source_id) source_inactive) _ e₁ in
      let (_, active, e₃) = >>=-ok (guard (is_active source.status) source_inactive) _ e₂ in
      let e₄ = rw (unused, file_active) at e₃ in
      let (db₁, added, e₅) =
        >>=-ok
          (add_uploaded_document u.content (file_rows db source source_id f ids now)
            (document_of u source_id f now) version_id now)
          _ e₄ in
      let (_, fresh, e₆) =
        >>=-ok
          (guard
            (is_new (file_rows db source source_id f ids now) source_id (some (file_key f.digest)))
            integrity_error)
          _ added in
      let at_source : get_source db source_id ≡ some source = ground arith in
      let db_is : db' ≡ after_upload source = ground arith in
      record {
        source = source;
        listed = rw db_is (row-put_self _ _ _ _ _ at_source (row-key _ _ _ at_source));
        active = ground arith;
        batch = rw db_is (rw find-append (rw unused (ground (arith, eq_refl (file_key f.digest)))));
        identity = rw db_is (
            any_last (has_identity source_id (file_key f.digest)) db.documents
              (document_of u source_id f now) (ground (arith, eq_refl (file_key f.digest))));
        same_run = ground arith;
        runs = ground arith;
      }

-- What is asked of a database to recognise an upload.
again :
    (u : Uploads) (db : Db) (source_id : ℕ) (f : UploadedFile) (ids : NewIds) (version_id now : ℕ)
    (source : Source) (b : Batch) (run : Run)
    → get_source db source_id ≡ some source
    → is_active source.status ≡ true
    → find (is_batch source_id (file_key f.digest)) db.batches ≡ some b
    → str_eq b.payload_hash f.digest ≡ true
    → has_document_identity db source_id (file_key f.digest) ≡ true
    → find (is_run_of b.id) db.runs ≡ some run
    → receive_file u db source_id f ids version_id now ≡ ok (run, false, db)
unfolding receive_file lock_source_for_document file_active file_again
again u db source_id f ids version_id now source b run listed active found same identity at_run =
    rw (listed, receive_file, lock_source_for_document)
      (rw active (rw (found, file_active) (rw (same, file_again) (rw identity (rw at_run refl)))))

forgotten :
    (u : Uploads) (db : Db) (source_id : ℕ) (f : UploadedFile) (ids : NewIds) (version_id now : ℕ)
    (source : Source) (b : Batch)
    → get_source db source_id ≡ some source
    → is_active source.status ≡ true
    → find (is_batch source_id (file_key f.digest)) db.batches ≡ some b
    → str_eq b.payload_hash f.digest ≡ true
    → has_document_identity db source_id (file_key f.digest) ≡ false
    → receive_file u db source_id f ids version_id now
      ≡ err (http 409 "This file was previously ingested and its document was deleted")
unfolding receive_file lock_source_for_document file_active file_again
forgotten u db source_id f ids version_id now source b listed active found same identity =
    rw (listed, receive_file, lock_source_for_document)
      (rw active (rw (found, file_active) (rw (same, file_again) (rw identity refl))))

-- If no run uses the new batch identifier yet, a file that was stored once for a source is answered,
-- when it is uploaded again with the same content, with the run of the first upload; it is not new,
-- and nothing is stored.
pub receive_file_again :
    (u : Uploads) (db : Db) (source_id : ℕ) (f : UploadedFile) (ids ids' : NewIds)
    (version_id version_id' now now' : ℕ) (run : Run) (new : Bool) (db' : Db)
    → find (is_batch source_id (file_key f.digest)) db.batches ≡ none
    → find (is_run_of ids.batch_id) db.runs ≡ none
    → receive_file u db source_id f ids version_id now ≡ ok (run, new, db')
    → receive_file u db' source_id f ids' version_id' now' ≡ ok (run, false, db')
receive_file_again u db source_id f ids ids' version_id version_id' now now' run new db' unused
      fresh e =
    let k = stored u db source_id f ids version_id now run db' new unused e in
    let at_run : find (is_run_of ids.batch_id) db'.runs ≡ some run =
      rw (k.runs, k.same_run) (rw find-append (rw fresh (ground arith))) in
    again u db' source_id f ids' version_id' now' (touch now k.source)
      (new_batch ids.batch_id source_id (file_key f.digest) f.digest now) run k.listed k.active
      k.batch (eq_refl f.digest) k.identity at_run

-- A file that was stored once is refused with 409 when it is uploaded again after every document
-- with its identity was deleted, as long as its source and its batch are as they were.
pub receive_file_deleted :
    (u : Uploads) (db : Db) (source_id : ℕ) (f : UploadedFile) (ids ids' : NewIds)
    (version_id version_id' now now' : ℕ) (run : Run) (new : Bool) (db' db'' : Db)
    → find (is_batch source_id (file_key f.digest)) db.batches ≡ none
    → receive_file u db source_id f ids version_id now ≡ ok (run, new, db')
    → db''.sources ≡ db'.sources
    → db''.batches ≡ db'.batches
    → has_document_identity db'' source_id (file_key f.digest) ≡ false
    → receive_file u db'' source_id f ids' version_id' now'
      ≡ err (http 409 "This file was previously ingested and its document was deleted")
receive_file_deleted u db source_id f ids ids' version_id version_id' now now' run new db' db''
      unused e sources batches gone =
    let k = stored u db source_id f ids version_id now run db' new unused e in
    forgotten u db'' source_id f ids' version_id' now' (touch now k.source)
      (new_batch ids.batch_id source_id (file_key f.digest) f.digest now) (rw sources k.listed)
      k.active (rw batches k.batch) (eq_refl f.digest) gone
