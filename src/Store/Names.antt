-- ===== src/Store/Names.antt =====
-- The text forms of the enumerations in the store.
use jiraleaks.Base.{◌≡◌, refl}
use jiraleaks.Finding.{Severity, Confidence, SourceType}
use jiraleaks.Store.{
  severity_to_str, str_to_severity, confidence_to_str, str_to_confidence, source_type_to_str,
  str_to_source_type,
}

severity_roundtrip : (s : Severity) → str_to_severity (severity_to_str s) ≡ s
unfolding severity_to_str str_to_severity
severity_roundtrip Severity.info = refl
severity_roundtrip Severity.low = refl
severity_roundtrip Severity.medium = refl
severity_roundtrip Severity.high = refl
severity_roundtrip Severity.critical = refl

confidence_roundtrip : (c : Confidence) → str_to_confidence (confidence_to_str c) ≡ c
unfolding confidence_to_str str_to_confidence
confidence_roundtrip Confidence.low = refl
confidence_roundtrip Confidence.medium = refl
confidence_roundtrip Confidence.high = refl

source_type_roundtrip : (t : SourceType) → str_to_source_type (source_type_to_str t) ≡ t
unfolding source_type_to_str str_to_source_type
source_type_roundtrip SourceType.description = refl
source_type_roundtrip SourceType.comment = refl
source_type_roundtrip SourceType.attachment = refl
source_type_roundtrip SourceType.custom_field = refl

-- Each severity, confidence and type of source is read back from the text that the store writes
-- for it.
stored_names_roundtrip :
    (s : Severity) (c : Confidence) (t : SourceType)
    → (str_to_severity (severity_to_str s) ≡ s)
      × (str_to_confidence (confidence_to_str c) ≡ c)
      × (str_to_source_type (source_type_to_str t) ≡ t)
stored_names_roundtrip s c t =
    (severity_roundtrip s, confidence_roundtrip c, source_type_roundtrip t)
