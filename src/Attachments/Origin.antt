-- ===== src/Attachments/Origin.antt =====
-- src/attachments.rs: the URLs that `resolve_content_url` gives.
use jiraleaks.Base.{
  true, ◌||◌, Option, none, some, ◌≡◌, inl, inr, refl, arith, Bool-cases, is_empty, Text, codes,
}
use jiraleaks.Text.Space.{trim}
use jiraleaks.Text.Find.{starts_with}
use jiraleaks.Attachments.{
  UrlLib, same_origin, candidate_url, checked, resolve_from, resolve_content_url,
}

module _ (lib : UrlLib) where
  open lib use {Url, parse, to_string}

  -- The text of a URL which has the origin of the base.
  pub record IsOwn (base_url url : Text) : Type 0 where
    pub base : Url
    pub target : Url
    pub parsed : parse base_url ≡ some base
    pub same : same_origin lib base target ≡ true
    pub text : url ≡ to_string target

  checked-IsOwn :
      (base_url : Text) (base : Url) (candidate : Option Url) (url : Text)
      → parse base_url ≡ some base
      → checked lib base candidate ≡ some url
      → IsOwn base_url url
  checked-IsOwn base_url base none url p e = absurd (ground arith)
  checked-IsOwn base_url base (some candidate) url p e =
      elim (Bool-cases (same_origin lib base candidate)) [
        | inl same ↦ record {
          base = base;
          target = candidate;
          parsed = p;
          same = same;
          text = ground arith;
        }
        | inr other ↦ absurd (ground arith)
      ]

  resolve_from-IsOwn :
      (base_url content : Text) (base : Option Url) (url : Text)
      → parse base_url ≡ base
      → resolve_from lib content base ≡ some url
      → IsOwn base_url url
  resolve_from-IsOwn base_url content none url p e = absurd (ground arith)
  resolve_from-IsOwn base_url content (some base) url p e =
      elim (Bool-cases (is_empty content || starts_with content (codes "//"))) [
        | inl refused ↦ absurd (ground arith)
        | inr kept ↦
            checked-IsOwn base_url base (candidate_url lib base content (parse content)) url p
              (rw kept at e)
      ]

  -- A `content` value that is resolved has scheme, host and port of the base URL.
  pub resolve_content_url-IsOwn :
      (base_url content url : Text)
      → resolve_content_url lib base_url content ≡ some url
      → IsOwn base_url url
  unfolding resolve_content_url
  resolve_content_url-IsOwn base_url content url e =
      resolve_from-IsOwn base_url (trim content) _ url refl e
