-- ===== src/Invitations/Requests/History.antt =====
-- What holds of every history of requests on invitations.
use taller_mecario_b.Base.{List, true, ◌≡◌}
use taller_mecario_b.Invitations.Store.{Db}
use taller_mecario_b.Invitations.Statements.Changes.{Advanced, Advanced-same, Advanced-Kept}
use taller_mecario_b.Invitations.Statements.Keys.{is_keyed, is_keyed-Kept}
use taller_mecario_b.Invitations.Requests.{Request, handle_all}
use taller_mecario_b.Invitations.Requests.Keeping.{handle_all-Keeps}

-- However invitations are created, revoked, accepted and found expired, no row is deleted and none
-- changes its id, workshop, email, role, token hash, deadline, inviter or creation instant; a row
-- changes at most once, from pending to an ended status, and stays as it is from then on; new rows
-- stand behind the others.
pub handle_all-Advanced :
    (rs : List Request) (db : Db) → Advanced db.invitations (handle_all rs db).invitations
handle_all-Advanced rs db =
    handle_all-Keeps (Advanced-Kept db.invitations) rs db (Advanced-same db.invitations)

-- Requests keep that no two invitations share an id or a token hash, and that a workshop has at most
-- one pending invitation for an email.
pub handle_all-is_keyed :
    (rs : List Request) (db : Db)
    → is_keyed db.invitations ≡ true
    → is_keyed (handle_all rs db).invitations ≡ true
handle_all-is_keyed rs db h = handle_all-Keeps is_keyed-Kept rs db h
