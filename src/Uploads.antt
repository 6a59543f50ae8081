-- ===== src/Uploads.antt =====
-- The photo uploads of backend/internal/r2: service.go CreatePhotoUpload and presigner.go
-- CreateUploadURL. path.Join, uuid.Parse, the fresh UUID and the signing of the S3 library are
-- arguments; the file name of a request goes nowhere.
pub mod Signing
pub mod Issued
mod Tests
use Prim.Native.String.{◌++◌ as str_append}
use geo_querry.Prelude.{
  ℕ, ◌*◌, String, Bool, true, false, not, Option, none, some, List, [], ◌∷◌, str_eq, if◌then◌else◌,
}
use geo_querry.Prelude.Int.{ℤ, pos, ◌+ℤ◌, ltb_ℤ, leb_ℤ}

pub record Presigner : Type 0 where
  pub bucket : String
  pub put_ttl : ℤ
  pub max_bytes : ℤ

-- What a presigned URL pins.
pub record PutObject : Type 0 where
  pub bucket : String
  pub key : String
  pub content_type : String
  pub content_length : ℤ
  pub expires_in : ℤ

pub record Tools : Type 0 where
  pub is_uuid : String → Bool
  pub join : List String → String
  pub presign : PutObject → Option String

pub record PhotoRequest : Type 0 where
  pub project_id : String
  pub station_id : String
  pub file_name : String
  pub content_type : String
  pub content_length_bytes : ℤ

-- `expires_at` is in milliseconds.
pub record Upload : Type 0 where
  pub upload_url : String
  pub r2_key : String
  pub expires_at : ℤ

pub data UploadError : Type 0 where
  unimplemented : UploadError
  id_missing : String → UploadError
  id_malformed : String → UploadError
  type_not_allowed : String → UploadError
  length_not_positive : UploadError
  too_large : ℤ → ℤ → UploadError
  presign_failed : UploadError

pub data Issue : Type 0 where
  refused : UploadError → Issue
  issued : Upload → Issue

-- allowedContentTypes
abbrev pub extension_of : String → Option String
extension_of content_type =
    if str_eq content_type "image/jpeg"
    then some ".jpg"
    else if str_eq content_type "image/png"
    then some ".png"
    else if str_eq content_type "image/webp"
    then some ".webp"
    else if str_eq content_type "image/heic"
    then some ".heic"
    else none

-- ObjectKey, with the fresh UUID
abbrev pub object_key : Tools → String → String → String → String → String
object_key tools project_id station_id extension uuid = tools.join (
    "photos"
    ∷ project_id
    ∷ (if str_eq station_id "" then "unfiled" else station_id)
    ∷ str_append uuid extension
    ∷ [])

abbrev pub put_object : Tools → Presigner → PhotoRequest → String → String → PutObject
put_object tools p req extension uuid = record {
  bucket = p.bucket;
  key = object_key tools req.project_id req.station_id extension uuid;
  content_type = req.content_type;
  content_length = req.content_length_bytes;
  expires_in = p.put_ttl;
}

abbrev pub issue_url : ℤ → String → Option String → Issue
issue_url expiry key none = refused presign_failed
issue_url expiry key (some url) =
    issued (record { upload_url = url; r2_key = key; expires_at = expiry })

-- CreateUploadURL, with the extension of the content type; `expiry` is its clock plus the TTL.
abbrev pub create_upload_url : Tools → Presigner → String → ℤ → PhotoRequest → Option String → Issue
create_upload_url tools p uuid expiry req none = refused (type_not_allowed req.content_type)
create_upload_url tools p uuid expiry req (some ext) =
    if leb_ℤ req.content_length_bytes (pos 0)
    then refused length_not_positive
    else if ltb_ℤ p.max_bytes req.content_length_bytes
    then refused (too_large req.content_length_bytes p.max_bytes)
    else issue_url expiry (object_key tools req.project_id req.station_id ext uuid)
        (tools.presign (put_object tools p req ext uuid))

-- requireUUID, before the rest
abbrev pub require_uuid : Tools → String → String → Issue → Issue
require_uuid tools value field rest =
    if str_eq value ""
    then refused (id_missing field)
    else if not (tools.is_uuid value)
    then refused (id_malformed field)
    else rest

-- CreatePhotoUpload; the presigner is none where R2 is not configured. The clock and the
-- TTL are in milliseconds.
unfoldable pub create_photo_upload : Tools → Option Presigner → String → ℤ → PhotoRequest → Issue
create_photo_upload tools none uuid now req = refused unimplemented
create_photo_upload tools (some p) uuid now req =
    let url =
      create_upload_url tools p uuid (now +ℤ p.put_ttl) req (extension_of req.content_type) in
    require_uuid tools req.project_id "project_id"
      (if str_eq req.station_id "" then url else require_uuid tools req.station_id "station_id" url)
