-- ===== src/Invitations/Message.antt =====
-- The message of an invitation: the delivery snapshot and the template of src/invitations/email.ts. The
-- tests of zod's url and datetime schemas and the text of a date are parameters. A text's length is the
-- number of its characters.
use Prim.Native.Char.{Char, code}
use taller_mecario_b.Base.{
  ℕ, zero, suc, String, ◌<>◌, Bool, true, false, ◌&&◌, ◌||◌, not, Result, ok, err, any, length,
  code_points, leb, ◌==◌, nat_key, if◌then◌else◌,
}
use taller_mecario_b.Authz.Roles.{RoleCode, owner, admin, service_advisor, technician}

-- `escapeHtml`, character by character: no replacement makes a character that a later one replaces
-- but for `&`, which is replaced first.
abbrev pub escaped : Char → String
escaped c =
    if code c == 38
    then "&amp;"
    else if code c == 60
    then "&lt;"
    else if code c == 62
    then "&gt;"
    else if code c == 34
    then "&quot;"
    else if code c == 39
    then "&#39;"
    else String.◌∷◌ c String.[]

abbrev pub escape_html : String → String
escape_html String.[] = String.[]
escape_html (String.◌∷◌ c s) = escaped c <> escape_html s

-- `[\u0000-\u001f\u007f]`.
abbrev pub is_control : Char → Bool
is_control c = leb (code c) 31 || code c == 127

-- The characters that `trim` takes off.
abbrev pub is_space : Char → Bool
is_space c =
    (leb 9 (code c) && leb (code c) 13)
    || code c == 32
    || code c == 160
    || code c == 5760
    || (leb 8192 (code c) && leb (code c) 8202)
    || code c == 8232
    || code c == 8233
    || code c == 8239
    || code c == 8287
    || code c == 12288
    || code c == 65279

-- `replace(/[\u0000-\u001f\u007f]+/gu, ' ')`: one space for each run of controls.
abbrev pub replace_runs : Bool → String → String
replace_runs inside String.[] = String.[]
replace_runs inside (String.◌∷◌ c s) =
    if is_control c
    then if inside then replace_runs true s else String.◌∷◌ " " (replace_runs true s)
    else String.◌∷◌ c (replace_runs false s)

abbrev pub trim_start : String → String
trim_start String.[] = String.[]
trim_start (String.◌∷◌ c s) = if is_space c then trim_start s else String.◌∷◌ c s

abbrev pub or_nothing : Char → String → String
or_nothing c String.[] = if is_space c then String.[] else String.◌∷◌ c String.[]
or_nothing c (String.◌∷◌ d s) = String.◌∷◌ c (String.◌∷◌ d s)

abbrev pub trim_end : String → String
trim_end String.[] = String.[]
trim_end (String.◌∷◌ c s) = or_nothing c (trim_end s)

-- `slice(0, count)`.
abbrev pub first_of : ℕ → String → String
first_of zero s = String.[]
first_of (suc count) String.[] = String.[]
first_of (suc count) (String.◌∷◌ c s) = String.◌∷◌ c (first_of count s)

unfoldable pub single_line : String → String
single_line value = first_of 160 (trim_end (trim_start (replace_runs false value)))

pub record Snapshot : Type 0 where
  pub template_version : ℕ
  pub from : String
  pub accept_url : String
  pub workshop_name : String
  pub role_label : String
  pub expires_at : String

pub record Formats : Type 0 where
  pub is_url : String → Bool
  pub is_datetime : String → Bool
  pub to_iso : ℕ → String
  -- The first ten characters of the ISO text of a datetime, its day.
  pub day_of : String → String
  -- The accept URL with `token=…` as its fragment.
  pub accept_link : String → String → String

-- `ROLE_NAMES_ES`.
abbrev pub role_name : RoleCode → String
role_name owner = "Owner"
role_name admin = "Administrador"
role_name service_advisor = "Asesor de servicio"
role_name technician = "Técnico"

abbrev pub has_length : ℕ → ℕ → String → Bool
has_length low high value =
    leb low (length (code_points value)) && leb (length (code_points value)) high

-- `deliverySnapshotSchema`.
unfoldable pub accepts_snapshot : Formats → Snapshot → Bool
accepts_snapshot formats s =
    s.template_version == 1
    && (has_length 3 320 s.from
        && not (any (λ c. c == 13 || c == 10) (code_points s.from))
        && any (λ c. c == 64) (code_points s.from))
    && (formats.is_url s.accept_url && has_length 0 2048 s.accept_url)
    && has_length 1 500 s.workshop_name
    && has_length 1 80 s.role_label
    && formats.is_datetime s.expires_at

pub record SnapshotInput : Type 0 where
  pub from : String
  pub accept_url : String
  pub workshop_name : String
  pub role : RoleCode
  pub expires_at : ℕ

abbrev pub frozen : Formats → SnapshotInput → Snapshot
frozen formats input = record {
  template_version = 1;
  from = input.from;
  accept_url = input.accept_url;
  workshop_name = input.workshop_name;
  role_label = role_name input.role;
  expires_at = formats.to_iso input.expires_at;
}

-- `buildInvitationDeliverySnapshot`: the schema's error has no other content.
unfoldable pub build_snapshot : Formats → SnapshotInput → Result (Unit {0}) Snapshot
build_snapshot formats input =
    if accepts_snapshot formats (frozen formats input) then ok (frozen formats input) else err tt

pub record EmailMessage : Type 0 where
  pub from : String
  pub to : String
  pub subject : String
  pub html : String
  pub text : String

abbrev newline : String
newline = "\n"

-- `renderInvitationEmail`.
unfoldable pub render_email : Formats → Snapshot → String → String → EmailMessage
unfolding single_line
render_email formats snapshot to accept_url =
    let workshop = single_line snapshot.workshop_name in
    let role_label = single_line snapshot.role_label in
    let expires = formats.day_of snapshot.expires_at in
    record {
      from = snapshot.from;
      to = to;
      subject = "Invitación a " <> (workshop <> " — TallerMecario");
      text =
          "Te invitaron a unirte a "
          <> (workshop
              <> (" en TallerMecario como "
                  <> (role_label
                      <> ("."
                          <> (newline
                              <> (newline
                                  <> ("Acepta la invitación (válida hasta "
                                      <> (expires
                                          <> (" UTC) iniciando sesión con este mismo correo verificado:"
                                              <> (newline
                                                  <> (accept_url
                                                      <> (newline
                                                          <> (newline
                                                            <> "Si no esperabas esta invitación, ignora este correo.")))))))))))));
      html =
          "<!doctype html><html><body>"
          <> ("<p>Te invitaron a unirte a <strong>"
              <> (escape_html workshop
                  <> ("</strong> en TallerMecario como "
                      <> (escape_html role_label
                          <> (".</p>"
                              <> ("<p>Acepta la invitación (válida hasta "
                                  <> (expires
                                      <> (" UTC) iniciando sesión con este mismo correo verificado:</p>"
                                          <> ("<p><a href=\""
                                              <> (escape_html accept_url
                                                  <> ("\">Aceptar invitación</a></p>"
                                                      <> ("<p>Si no esperabas esta invitación, ignora este correo.</p>"
                                                          <> "</body></html>"))))))))))));
    }
