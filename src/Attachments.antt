-- ===== src/Attachments.antt =====
-- src/attachments.rs: which attachments of an issue are fetched and from where. The crate `url` is
-- a parameter, and so is what the JSON library makes of an entry.
pub mod Download
pub mod Origin
pub mod Collect
use jiraleaks.Base.{
  ℕ, zero, suc, ◌+◌, ◌-◌, ◌*◌, ◌/◌, ◌%◌, ◌^◌, ◌≤◌, ◌<◌, min, max, Bool, true, false, not, ◌&&◌,
  ◌||◌, Option, none, some, List, [], ◌∷◌, ◌++◌, map, append_assoc, append-nil, ◌≡◌, ◌≢◌, ◌↔◌, ◌⊎◌,
  inl, inr, refl, sym, ap, ◌∙◌, subst, arith, ltb, leb, ◌==◌, if◌then◌else◌, Bool-cases,
  Option-cases, eq_of_==, ==_refl, &&-true, ||-true, ||-false, length, get_elem?, take, drop,
  is_empty, any, all, All, In, here, there, length-append, length-take-le, length-reverse, reverse,
  reverse-append, In-append_left, In-append_right, In-append_split, All-append, All-In, Text, codes,
  text_eq, eq_of_text_eq, text_eq_refl, text_eq_of_eq, text_eq_comm, if_intro,
}
use jiraleaks.Text.Find.{starts_with}
use jiraleaks.Text.Space.{trim}
use jiraleaks.Sanitize.{terminal, as_str, Cow}
use jiraleaks.Allowlist.{to_ascii_lowercase}

pub record AttachmentMeta : Type 0 where
  pub id : Text
  pub filename : Text
  pub size : ℕ
  pub mime_type : Text
  pub content : Text

pub record AttachmentPolicy : Type 0 where
  pub enabled : Bool
  pub max_bytes_per_attachment : ℕ
  pub max_attachments_per_issue : ℕ
  pub max_bytes_per_issue : ℕ

pub record AttachmentOutcome : Type 0 where
  pub scanned : ℕ
  pub skipped : ℕ
  pub failed : ℕ
  pub bytes_downloaded : ℕ

pub record AttachmentBody : Type 0 where
  pub bytes : List ℕ
  pub truncated : Bool

abbrev pub max_attachments : ℕ
max_attachments = 20

abbrev pub max_attachment_bytes : ℕ
max_attachment_bytes = 32 * 1024 * 1024

abbrev max_field_name_chars : ℕ
max_field_name_chars = 128

-- `AttachmentPolicy::from_config`.
unfoldable pub policy_from :
    (scan_attachments : Bool) (max_attachment_size_mb : ℕ) → AttachmentPolicy
policy_from scan_attachments max_attachment_size_mb = record {
  enabled = scan_attachments;
  max_bytes_per_attachment = min (max_attachment_size_mb * (1024 * 1024)) (2 ^ 64 - 1);
  max_attachments_per_issue = max_attachments;
  max_bytes_per_issue = max_attachment_bytes;
}

abbrev text_extensions : List Text
text_extensions =
    codes "txt"
    ∷ codes "log"
    ∷ codes "env"
    ∷ codes "ini"
    ∷ codes "conf"
    ∷ codes "cfg"
    ∷ codes "properties"
    ∷ codes "pem"
    ∷ codes "key"
    ∷ codes "crt"
    ∷ codes "cer"
    ∷ codes "pub"
    ∷ codes "json"
    ∷ codes "yaml"
    ∷ codes "yml"
    ∷ codes "toml"
    ∷ codes "xml"
    ∷ codes "csv"
    ∷ codes "sql"
    ∷ codes "md"
    ∷ codes "sh"
    ∷ codes "ps1"
    ∷ codes "py"
    ∷ codes "rb"
    ∷ codes "js"
    ∷ codes "ts"
    ∷ codes "go"
    ∷ codes "rs"
    ∷ codes "java"
    ∷ codes "tf"
    ∷ codes "tfvars"
    ∷ codes "dockerfile"
    ∷ codes "gitconfig"
    ∷ codes "npmrc"
    ∷ []

abbrev binary_extensions : List Text
binary_extensions =
    codes "zip"
    ∷ codes "tar"
    ∷ codes "gz"
    ∷ codes "tgz"
    ∷ codes "bz2"
    ∷ codes "xz"
    ∷ codes "7z"
    ∷ codes "rar"
    ∷ codes "exe"
    ∷ codes "dll"
    ∷ codes "so"
    ∷ codes "dylib"
    ∷ codes "bin"
    ∷ codes "iso"
    ∷ codes "png"
    ∷ codes "jpg"
    ∷ codes "jpeg"
    ∷ codes "gif"
    ∷ codes "bmp"
    ∷ codes "ico"
    ∷ codes "webp"
    ∷ codes "svg"
    ∷ codes "pdf"
    ∷ codes "doc"
    ∷ codes "docx"
    ∷ codes "xls"
    ∷ codes "xlsx"
    ∷ codes "ppt"
    ∷ codes "pptx"
    ∷ codes "odt"
    ∷ codes "ods"
    ∷ codes "odp"
    ∷ []

abbrev text_filenames : List Text
text_filenames = codes "dockerfile" ∷ codes "makefile" ∷ codes "gemfile" ∷ []

abbrev is_separator : ℕ → Bool
is_separator c = c == b'/' || c == b'\\'

-- What follows the last separator.
unfoldable pub basename : Text → Text
basename [] = []
basename (c ∷ s) =
    let deeper = basename s in
    if any is_separator s then deeper else if is_separator c then s else c ∷ s

-- `rsplit_once('.')`, its second part.
abbrev after_dot : Text → Option Text
after_dot [] = none
after_dot (c ∷ s) = elim (after_dot s) [
  | some extension ↦ some extension
  | none ↦ if c == b'.' then some s else none
]

unfoldable pub extension_of : Text → Text
extension_of name = elim (after_dot name) [
  | some extension ↦ map to_ascii_lowercase extension
  | none ↦ []
]

-- `split(';').next()`.
abbrev before_semicolon : Text → Text
before_semicolon [] = []
before_semicolon (c ∷ s) = if c == b';' then [] else c ∷ before_semicolon s

abbrev is_one_of : List Text → Text → Bool
is_one_of names s = any (λ name. text_eq name s) names

unfoldable pub mime_is_text : Text → Bool
unfolding trim
mime_is_text mime_type =
    let mime = map to_ascii_lowercase (trim (before_semicolon mime_type)) in
    starts_with mime (codes "text/")
    || is_one_of
        (codes "application/json" ∷ codes "application/xml" ∷ codes "application/x-yaml" ∷ []) mime

unfoldable pub skip_reason : AttachmentMeta → Option Text
unfolding trim basename extension_of mime_is_text
skip_reason meta =
    if is_empty (trim meta.filename)
    then some (codes "no filename")
    else let extension = extension_of (basename meta.filename) in
      if is_one_of binary_extensions extension
      then some (codes "binary, archive or office format")
      else if is_one_of text_extensions extension
          || is_one_of text_filenames (map to_ascii_lowercase (basename meta.filename))
      then none
      else if mime_is_text meta.mime_type
      then none
      else some (codes "not a text extension and not a text MIME type")

abbrev flatten : ℕ → ℕ
flatten c = if c == 10 || c == 13 || c == 9 then b' ' else c

abbrev named : Text → Text
named flattened = if is_empty (trim flattened) then codes "unnamed" else flattened

abbrev pub name_of : Option Cow → Option Text
name_of none = none
name_of (some clean) = some (named (take max_field_name_chars (map flatten (as_str clean))))

unfoldable pub field_name : Text → Option Text
unfolding terminal
field_name filename = name_of (terminal filename)

-- The crate `url`.
pub record UrlLib : Type 1 where
  pub Url : Type 0
  pub parse : Text → Option Url
  pub join : Url → Text → Option Url
  pub scheme : Url → Text
  pub host_str : Url → Option Text
  pub port_or_known_default : Url → Option ℕ
  pub to_string : Url → Text

module _ (lib : UrlLib) where
  open lib use {Url, parse, join, scheme, host_str, port_or_known_default, to_string}

  abbrev pub same_host : Option Text → Option Text → Bool
  same_host none none = true
  same_host (some a) (some b) = text_eq a b
  same_host _ _ = false

  abbrev pub same_port : Option ℕ → Option ℕ → Bool
  same_port none none = true
  same_port (some a) (some b) = a == b
  same_port _ _ = false

  unfoldable pub same_origin : Url → Url → Bool
  same_origin a b =
      text_eq (scheme a) (scheme b)
      && same_host (host_str a) (host_str b)
      && same_port (port_or_known_default a) (port_or_known_default b)

  -- An absolute URL stands for itself, anything else is relative to the base.
  abbrev pub candidate_url : (base : Url) (content : Text) → Option Url → Option Url
  candidate_url base content (some url) = some url
  candidate_url base content none = join base content

  abbrev pub checked : (base : Url) → Option Url → Option Text
  checked base none = none
  checked base (some candidate) =
      if same_origin base candidate then some (to_string candidate) else none

  abbrev pub resolve_from : (content : Text) → Option Url → Option Text
  resolve_from content none = none
  resolve_from content (some base) =
      if is_empty content || starts_with content (codes "//")
      then none
      else checked base (candidate_url base content (parse content))

  unfoldable pub resolve_content_url : (base_url content : Text) → Option Text
  unfolding same_origin trim
  resolve_content_url base_url content = resolve_from (trim content) (parse base_url)
