-- ===== src/Service/Secret/Paths.antt =====
-- internal/service/secret_service.go: parseSecretPath and parseFolderPath. The texts of their
-- errors stand without the path that they quote.
pub mod RoundTrip
use env_vault.Base.{
  String, Bool, not, List, [], ◌∷◌, Result, ok, err, Failure, failure, any, if◌then◌else◌,
}
use env_vault.Text.{trim_space, is_blank, split}

pub record FolderPath : Type 0 where
  pub org_code : String
  pub project_code : String
  pub env_code : String
  pub folder_code : String

pub record SecretPath : Type 0 where
  pub org_code : String
  pub project_code : String
  pub env_code : String
  pub folder_code : String
  pub key : String

abbrev five_parts : List String → Result SecretPath
five_parts (o ∷ p ∷ e ∷ f ∷ k ∷ []) =
    if any is_blank (o ∷ p ∷ e ∷ f ∷ k ∷ [])
    then err (failure "invalid secret path: empty segment")
    else ok (record { org_code = o; project_code = p; env_code = e; folder_code = f; key = k })
five_parts parts = err (failure "invalid secret path: expected org.project.env.folder.KEY")

abbrev pub four_parts : List String → Result FolderPath
four_parts (o ∷ p ∷ e ∷ f ∷ []) =
    if any is_blank (o ∷ p ∷ e ∷ f ∷ [])
    then err (failure "invalid folder path: empty segment")
    else ok (record { org_code = o; project_code = p; env_code = e; folder_code = f })
four_parts parts = err (failure "invalid folder path: expected org.project.env.folder")

unfoldable pub parse_secret_path : String → Result SecretPath
parse_secret_path path = five_parts (split b'.' (trim_space path))

unfoldable pub parse_folder_path : String → Result FolderPath
parse_folder_path path = four_parts (split b'.' (trim_space path))
