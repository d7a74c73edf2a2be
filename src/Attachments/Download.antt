-- ===== src/Attachments/Download.antt =====
-- src/jira/client.rs: `download_attachment`. `send` is what the server answers to a request for a
-- URL, after the retries.
use jiraleaks.Base.{
  ℕ, ◌-◌, ◌≤◌, true, false, Option, none, some, List, [], ◌∷◌, ◌++◌, ◌≡◌, inl, inr, arith, ltb,
  if◌then◌else◌, Bool-cases, length, take, length-append, length-take-le, Text, codes,
}
use jiraleaks.Error.{Result, jira_access, ok, err, ◌>>=◌}
use jiraleaks.Extract.{decimal}
use jiraleaks.Sanitize.{Cow, terminal, as_str}
use jiraleaks.Attachments.{AttachmentBody, UrlLib, resolve_content_url}

pub data Chunk : Type 0 where
  data_chunk : List ℕ → Chunk
  broken : (error : Text) → Chunk

pub record Response : Type 0 where
  pub content_length : Option ℕ
  pub chunks : List Chunk

-- The loop over the chunks, with the bytes so far.
unfoldable pub read_body : (max_bytes : ℕ) → List Chunk → (bytes : List ℕ) → Result AttachmentBody
read_body max_bytes [] bytes = ok (record { bytes = bytes; truncated = false })
read_body max_bytes (broken error ∷ chunks) bytes =
    err (jira_access (codes "Attachment read failed: " ++ error))
read_body max_bytes (data_chunk chunk ∷ chunks) bytes =
    let room = max_bytes - length bytes in
    let rest = read_body max_bytes chunks (bytes ++ chunk) in
    if ltb room (length chunk)
    then ok (record { bytes = bytes ++ take room chunk; truncated = true })
    else rest

-- The length that the header declares is looked at before the body is read.
abbrev within_length : (max_bytes : ℕ) → Option ℕ → Result AttachmentBody → Result AttachmentBody
within_length max_bytes none body = body
within_length max_bytes (some declared) body =
    if ltb max_bytes declared
    then err (
        jira_access (
          codes "Attachment is "
          ++ (decimal declared
              ++ (codes " bytes, over the " ++ (decimal max_bytes ++ codes " byte limit")))))
    else body

unfoldable pub read_response : (max_bytes : ℕ) → Response → Result AttachmentBody
unfolding read_body decimal
read_response max_bytes resp =
    within_length max_bytes resp.content_length (read_body max_bytes resp.chunks [])

-- The sanitising always has a result.
abbrev shown : Option Cow → Text
shown none = []
shown (some clean) = as_str clean

-- A result, with the URLs that were asked for on the way, in order.
abbrev pub Requested : Type 0 → Type 0
Requested A = List Text × Result A

module _ (lib : UrlLib) (base_url : Text) (send : Text → Result Response) where
  -- A request: the URL that is asked for, and the answer.
  abbrev pub request : Text → Requested Response
  request url = (url ∷ [], send url)

  -- What is read of the answer to a request.
  abbrev pub answered : (max_bytes : ℕ) → Requested Response → Requested AttachmentBody
  answered max_bytes (urls, answer) = (urls, answer >>= read_response max_bytes)

  abbrev pub fetch : (url : Text) (max_bytes : ℕ) → Option Text → Requested AttachmentBody
  fetch url max_bytes none = (
    [],
    err (
        jira_access (
          codes "Refusing to fetch an attachment from outside "
          ++ (base_url ++ (codes ": " ++ shown (terminal url))))),
  )
  fetch _ max_bytes (some url) = answered max_bytes (request url)

  unfoldable pub download_attachment : (url : Text) (max_bytes : ℕ) → Requested AttachmentBody
  unfolding read_response
  download_attachment url max_bytes = fetch url max_bytes (resolve_content_url lib base_url url)

read_body_bound :
    (max_bytes : ℕ) (chunks : List Chunk) (bytes : List ℕ) (body : AttachmentBody)
    → length bytes ≤ max_bytes
    → read_body max_bytes chunks bytes ≡ ok body
    → length body.bytes ≤ max_bytes
unfolding read_body
read_body_bound max_bytes [] bytes body h e = ground (arith, h)
read_body_bound max_bytes (broken error ∷ chunks) bytes body h e = absurd (ground arith)
read_body_bound max_bytes (data_chunk chunk ∷ chunks) bytes body h e =
    let room = max_bytes - length bytes in
    elim (Bool-cases (ltb room (length chunk))) [
      | inl cut ↦
          let whole : body.bytes ≡ bytes ++ take room chunk = ground arith in
          rw whole
            (omega (arith, h, length-append bytes (take room chunk), length-take-le room chunk))
      | inr fits ↦
          read_body_bound max_bytes chunks (bytes ++ chunk) body
            (ground (arith, length-append bytes chunk)) (rw fits at e)
    ]

within_length_ok :
    (max_bytes : ℕ) (declared : Option ℕ) (r : Result AttachmentBody) (body : AttachmentBody)
    → within_length max_bytes declared r ≡ ok body
    → r ≡ ok body
within_length_ok max_bytes none r body e = e
within_length_ok max_bytes (some declared) r body e = ground arith

module _ (lib : UrlLib) (base_url : Text) (send : Text → Result Response) where
  bound_of_answer :
      (max_bytes : ℕ) (answer : Result Response) (body : AttachmentBody)
      → (answer >>= read_response max_bytes) ≡ ok body
      → length body.bytes ≤ max_bytes
  unfolding read_response
  bound_of_answer max_bytes (err error) body e = absurd (ground arith)
  bound_of_answer max_bytes (ok resp) body e =
      read_body_bound max_bytes resp.chunks [] body (omega arith)
        (within_length_ok max_bytes resp.content_length _ body e)

  fetch_bound :
      (url : Text) (max_bytes : ℕ) (resolved : Option Text) (body : AttachmentBody)
      → (fetch lib base_url send url max_bytes resolved).1 ≡ ok body
      → length body.bytes ≤ max_bytes
  fetch_bound url max_bytes none body e = absurd (ground arith)
  fetch_bound url max_bytes (some resolved) body e =
      bound_of_answer max_bytes (send resolved) body e

  -- A body that was downloaded is never longer than the limit of its request.
  pub download_attachment_bound :
      (url : Text) (max_bytes : ℕ) (body : AttachmentBody)
      → (download_attachment lib base_url send url max_bytes).1 ≡ ok body
      → length body.bytes ≤ max_bytes
  unfolding download_attachment
  download_attachment_bound url max_bytes body e =
      fetch_bound url max_bytes (resolve_content_url lib base_url url) body e
