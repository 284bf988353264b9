-- ===== src/Sync/Denied.antt =====
-- A remote with a policy: what the policy denies changes nothing.
use qri.Oplog.Op.{Op}
use qri.Oplog.Log
use qri.Oplog.Journal.{Journal}
use qri.Access.Defs as Access
use qri.Dsref.Ref.{Ref}
use qri.Logbook.Book.Defs.{Book}
