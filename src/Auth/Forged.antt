-- ===== src/Auth/Forged.antt =====
-- Requests that another site forges.
use bbd_os.Auth.{Auth}
