-- ===== src/Uploads/Issued.antt =====
-- Which requests get an upload URL.
use Prim.Native.String.{◌++◌ as str_append}
use geo_querry.Prelude.{
  [], ◌∷◌, ◌∙◌, String, ◌≡◌, ◌≢◌, ◌↔◌, ◌⊎◌, inl, inr, refl, sym, true, false, some, str_eq,
  if◌then◌else◌, arith, eq_iff, Bool-cases, str_eq-false,
}
use geo_querry.Prelude.Int.{ℤ, pos, ◌≤ℤ◌, ◌<ℤ◌, ◌+ℤ◌}
use geo_querry.Uploads.{
  Presigner, Tools, PutObject, PhotoRequest, Upload, issued, extension_of, object_key, put_object,
  create_photo_upload,
}
use geo_querry.Uploads.Signing.{
  IsSignable, create_photo_upload-IsSignable, IsSignable-create_photo_upload,
}

-- the four types of photos, each with its extension
pub data IsImage (content_type ext : String) : Type 0 where
  jpeg : content_type ≡ "image/jpeg" → ext ≡ ".jpg" → IsImage content_type ext
  png : content_type ≡ "image/png" → ext ≡ ".png" → IsImage content_type ext
  webp : content_type ≡ "image/webp" → ext ≡ ".webp" → IsImage content_type ext
  heic : content_type ≡ "image/heic" → ext ≡ ".heic" → IsImage content_type ext

-- the folder of the photo: a station, which is a UUID, or "unfiled"
pub data IsScope (tools : Tools) (station_id scope : String) : Type 0 where
  unfiled : station_id ≡ "" → scope ≡ "unfiled" → IsScope tools station_id scope
  of_station :
      station_id ≢ ""
      → tools.is_uuid station_id ≡ true
      → scope ≡ station_id
      → IsScope tools station_id scope

-- Everything that has to hold for a URL to be issued, and what the URL is signed for.
pub record IsIssued (tools : Tools) (p : Presigner) (uuid : String) (req : PhotoRequest)
    (up : Upload) : Type 0 where
  pub project_given : req.project_id ≢ ""
  pub project_uuid : tools.is_uuid req.project_id ≡ true
  pub scope : String
  pub scoped : IsScope tools req.station_id scope
  pub ext : String
  pub image : IsImage req.content_type ext
  pub positive : pos 0 <ℤ req.content_length_bytes
  pub bounded : req.content_length_bytes ≤ℤ p.max_bytes
  pub key_is : up.r2_key ≡ tools.join ("photos" ∷ req.project_id ∷ scope ∷ str_append uuid ext ∷ [])
  pub put : PutObject
  pub put_bucket : put.bucket ≡ p.bucket
  pub put_key : put.key ≡ up.r2_key
  pub put_type : put.content_type ≡ req.content_type
  pub put_length : put.content_length ≡ req.content_length_bytes
  pub put_expiry : put.expires_in ≡ p.put_ttl
  pub presigned : tools.presign put ≡ some up.upload_url

extension_of-IsImage :
    (content_type ext : String) → extension_of content_type ≡ some ext → IsImage content_type ext
extension_of-IsImage t ext e = elim (Bool-cases (str_eq t "image/jpeg")) [
  | inl a ↦ jpeg ((eq_iff t "image/jpeg").0 a) (ground arith)
  | inr a ↦ elim (Bool-cases (str_eq t "image/png")) [
    | inl b ↦ png ((eq_iff t "image/png").0 b) (ground arith)
    | inr b ↦ elim (Bool-cases (str_eq t "image/webp")) [
      | inl c ↦ webp ((eq_iff t "image/webp").0 c) (ground arith)
      | inr c ↦ elim (Bool-cases (str_eq t "image/heic")) [
        | inl d ↦ heic ((eq_iff t "image/heic").0 d) (ground arith)
        | inr d ↦ absurd (ground arith)
      ]
    ]
  ]
]

IsImage-extension_of :
    (content_type ext : String) → IsImage content_type ext → extension_of content_type ≡ some ext
IsImage-extension_of t ext (jpeg a b) = rw (a, b) refl
IsImage-extension_of t ext (png a b) = rw (a, b) refl
IsImage-extension_of t ext (webp a b) = rw (a, b) refl
IsImage-extension_of t ext (heic a b) = rw (a, b) refl

module _ (tools : Tools) (p : Presigner) (uuid : String) (now : ℤ) (req : PhotoRequest) where
  -- the folder of the key is the scope
  scope_of :
      (scope : String)
      → IsScope tools req.station_id scope
      → (if str_eq req.station_id "" then "unfiled" else req.station_id) ≡ scope
  scope_of scope (unfiled e s) = rw (e, s) refl
  scope_of scope (of_station e u s) = rw (str_eq-false req.station_id "" e, s) refl

  station_uuid_of :
      (scope : String)
      → IsScope tools req.station_id scope
      → (req.station_id ≡ "") ⊎ (tools.is_uuid req.station_id ≡ true)
  station_uuid_of scope (unfiled e s) = inl e
  station_uuid_of scope (of_station e u s) = inr u

  scoped_of :
      (req.station_id ≡ "") ⊎ (tools.is_uuid req.station_id ≡ true)
      → IsScope tools req.station_id
          (if str_eq req.station_id "" then "unfiled" else req.station_id)
  scoped_of h = elim (Bool-cases (str_eq req.station_id "")) [
    | inl e ↦ rw e (unfiled ((eq_iff req.station_id "").0 e) refl)
    | inr e ↦ rw e (of_station (λ same. ground (arith, eq_iff req.station_id "")) (a_uuid e h) refl)
  ]
    where
      a_uuid :
          str_eq req.station_id "" ≡ false
          → (req.station_id ≡ "") ⊎ (tools.is_uuid req.station_id ≡ true)
          → tools.is_uuid req.station_id ≡ true
      a_uuid e (inl same) = ground (arith, eq_iff req.station_id "")
      a_uuid e (inr u) = u

  IsSignable-IsIssued :
      (up : Upload) → IsSignable tools p uuid req up → IsIssued tools p uuid req up
  IsSignable-IsIssued up k = record {
    project_given = k.project_given;
    project_uuid = k.project_uuid;
    scope = if str_eq req.station_id "" then "unfiled" else req.station_id;
    scoped = scoped_of k.station_uuid;
    ext = k.ext;
    image = extension_of-IsImage req.content_type k.ext k.allowed;
    positive = k.positive;
    bounded = k.bounded;
    key_is = sym k.key;
    put = put_object tools p req k.ext uuid;
    put_bucket = refl;
    put_key = k.key;
    put_type = refl;
    put_length = refl;
    put_expiry = refl;
    presigned = k.presigned;
  }

  IsIssued-IsSignable :
      (up : Upload) → IsIssued tools p uuid req up → IsSignable tools p uuid req up
  IsIssued-IsSignable up k = record {
    project_given = k.project_given;
    project_uuid = k.project_uuid;
    station_uuid = station_uuid_of k.scope k.scoped;
    ext = k.ext;
    allowed = IsImage-extension_of req.content_type k.ext k.image;
    positive = k.positive;
    bounded = k.bounded;
    key = key;
    presigned = same_put ∙ k.presigned;
  }
    where
      key : object_key tools req.project_id req.station_id k.ext uuid ≡ up.r2_key
      key = rw (object_key, scope_of k.scope k.scoped) (sym k.key_is)

      same_put : tools.presign (put_object tools p req k.ext uuid) ≡ tools.presign k.put
      same_put =
          let kk = key in
          rw (key, ← k.put_bucket, ← k.put_key, ← k.put_type, ← k.put_length, ← k.put_expiry) refl

  -- Where R2 is configured, a URL is issued exactly when the project id is a UUID, the station id is
  -- empty or one, the content type is image/jpeg, image/png, image/webp or image/heic, the length is
  -- positive and at most the limit, and the signing succeeds. The URL then is signed for exactly
  -- this type and length, in the bucket, for the TTL, under the key that joins "photos", the
  -- project, the station or "unfiled", and a fresh UUID with the extension of the type; and it
  -- expires at the clock plus the TTL.
  pub create_photo_upload_iff :
      (up : Upload)
      → (create_photo_upload tools (some p) uuid now req ≡ issued up)
        ↔ (IsIssued tools p uuid req up × (up.expires_at ≡ (now +ℤ p.put_ttl)))
  create_photo_upload_iff up = (
    λ h.
        let (k, e) = create_photo_upload-IsSignable tools p uuid now req up h in
        (IsSignable-IsIssued up k, e),
    λ (k, e). IsSignable-create_photo_upload tools p uuid now req up (IsIssued-IsSignable up k) e,
  )
