-- ===== src/Accounts/Checks.antt =====
-- services/api/pilot_identity.py: the checks of what is typed in, and the lookup of a branch.
use aisle_signals.Common.{ℕ, Bool, ◌&&◌, ◌||◌, not, String, str_eq, leb}
use aisle_signals.Common.Tables.{first}
use aisle_signals.Accounts.Model.{
  Answer, done, ◌>>=◌, ◌>>◌, require, bad_text, bad_email, demo_address, bad_password,
  unknown_branch, or_refuse, Scope, Entity, Db, Host,
}

abbrev pub password_iterations : ℕ
password_iterations = 600000

-- `PASSWORD` of the demonstration
abbrev pub demo_password : String
demo_password = "AisleDemo!2026"

-- `text`, with its usual bounds
unfoldable pub text : Host → String → Answer String
text host typed = do
  let value = host.strip typed in
      require (leb 2 (host.size value) && leb (host.size value) 120 && host.is_printable value)
        bad_text
  done (host.strip typed)

-- `email_address`
unfoldable pub email_address : Host → String → Answer String
email_address host typed = do
  let value = host.lower (host.strip typed) in
      require (leb (host.size value) 254 && host.is_address value && host.is_printable value)
        bad_email
  require (not (host.ends_with ".demo" (host.lower (host.strip typed)))) demo_address
  done (host.lower (host.strip typed))

-- `validate_password`
unfoldable pub validate_password : Host → String → Answer String
validate_password host value = do
  require
      (leb 14 (host.size value)
        && leb (host.size value) 256
        && str_eq value (host.strip value)
        && leb 6 (host.distinct value)
        && not (str_eq value demo_password)
        && host.is_printable value)
      bad_password
  done value

-- `role in {"MANAGER", "REVIEWER"}`
abbrev pub is_role : String → Bool
is_role role = str_eq role "MANAGER" || str_eq role "REVIEWER"

-- The row of a branch.
abbrev pub is_site : String → Entity → Bool
is_site id e = str_eq e.id id && str_eq e.kind "site" && str_eq e.site_id e.id

-- `site_scope`
unfoldable pub site_scope : Db → String → Answer Scope
site_scope db id = do
  e ← or_refuse (first (is_site id) db.entities) unknown_branch
  done (record { organisation_id = e.organisation_id; site_id = e.site_id })
