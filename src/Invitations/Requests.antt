-- ===== src/Invitations/Requests.antt =====
-- The commands on invitations as requests. Creation and revocation run in the transaction of the tenant
-- request, which is rolled back on every error but the refusal that their routes declare durable
-- (src/invitations/routes.ts, finalizeTenantTransaction of src/api/tenant-request.ts); acceptance ends
-- its own. Requests on one invitation serialize on its row lock, so a history is a list of requests.
pub mod Keeping
pub mod History
use taller_mecario_b.Base.{ℕ, String, List, [], ◌∷◌, Result, ok, err}
use taller_mecario_b.Invitations.Store.{Db, InvitationError, role_not_allowed}
use taller_mecario_b.Invitations.Request.{RequestContext}
use taller_mecario_b.Invitations.Create.{Library, ApiConfig, CreateInput, Fresh, create_invitation}
use taller_mecario_b.Invitations.Revoke.{revoke_invitation}
use taller_mecario_b.Invitations.Joining.{AcceptInput}
use taller_mecario_b.Invitations.Accept.{accept_invitation}

-- The tables after the request's transaction: `before` is what a ROLLBACK restores.
abbrev pub finalize : {A : Type 0} → Db → Result InvitationError A × Db → Db
finalize before (ok reply, after) = after
finalize before (err role_not_allowed, after) = after
finalize before (err e, after) = before

pub data Request : Type 0 where
  create : Library → ApiConfig → RequestContext → CreateInput → Fresh → Request
  revoke : RequestContext → String → ℕ → ℕ → Request
  accept : AcceptInput → Request

unfoldable pub handle : Request → Db → Db
handle (create library config context input fresh) db =
    finalize db (create_invitation library config context input fresh db)
handle (revoke context id read_at written_at) db =
    finalize db (revoke_invitation context id read_at written_at db)
handle (accept input) db = (accept_invitation input db).1

unfoldable pub handle_all : List Request → Db → Db
handle_all [] db = db
handle_all (r ∷ rs) db = handle_all rs (handle r db)
