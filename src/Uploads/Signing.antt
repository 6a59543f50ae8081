-- ===== src/Uploads/Signing.antt =====
-- The checks and the signing of an upload, as conditions in the terms of the code.
use geo_querry.Prelude.{
  String, ◌≡◌, ◌≢◌, ◌⊎◌, inl, inr, refl, sym, ap, Bool, true, false, Option, none, some, str_eq,
  if◌then◌else◌, arith, eq_iff, Bool-cases, str_eq-false,
}
use geo_querry.Prelude.Int.{ℤ, pos, ◌≤ℤ◌, ◌<ℤ◌, ltb_ℤ, leb_ℤ, ◌+ℤ◌}
use geo_querry.Uploads.{
  Presigner, Tools, PhotoRequest, Upload, Issue, issued, extension_of, object_key, put_object,
  issue_url, create_upload_url, require_uuid, create_photo_upload,
}

-- what the checks and the signing of the code ask for
pub record IsSignable (tools : Tools) (p : Presigner) (uuid : String) (req : PhotoRequest)
    (up : Upload) : Type 0 where
  pub project_given : req.project_id ≢ ""
  pub project_uuid : tools.is_uuid req.project_id ≡ true
  pub station_uuid : (req.station_id ≡ "") ⊎ (tools.is_uuid req.station_id ≡ true)
  pub ext : String
  pub allowed : extension_of req.content_type ≡ some ext
  pub positive : pos 0 <ℤ req.content_length_bytes
  pub bounded : req.content_length_bytes ≤ℤ p.max_bytes
  pub key : object_key tools req.project_id req.station_id ext uuid ≡ up.r2_key
  pub presigned : tools.presign (put_object tools p req ext uuid) ≡ some up.upload_url

module _ (tools : Tools) (p : Presigner) (uuid : String) (now : ℤ) (req : PhotoRequest) where
  -- what the presigner asks of a request
  Accepted : Upload → Type 0
  Accepted up =
      (ext : String) × (extension_of req.content_type ≡ some ext)
      × (pos 0 <ℤ req.content_length_bytes)
      × (req.content_length_bytes ≤ℤ p.max_bytes)
      × (object_key tools req.project_id req.station_id ext uuid ≡ up.r2_key)
      × (tools.presign (put_object tools p req ext uuid) ≡ some up.upload_url)
      × ((now +ℤ p.put_ttl) ≡ up.expires_at)

  require_uuid-issued :
      (value field : String) (rest : Issue) (up : Upload)
      → require_uuid tools value field rest ≡ issued up
      → (value ≢ "") × (tools.is_uuid value ≡ true) × (rest ≡ issued up)
  require_uuid-issued value field rest up = elim (Bool-cases (str_eq value "")) [
    | inl e ↦ rw e (λ h. absurd (cc))
    | inr e ↦ elim (Bool-cases (tools.is_uuid value)) [
      | inr u ↦ rw (e, u) (λ h. absurd (cc))
      | inl u ↦ rw (e, u) (λ h. (λ same. ground (arith, eq_iff value ""), refl, h))
    ]
  ]

  create_upload_url-issued :
      (o : Option String) (up : Upload)
      → extension_of req.content_type ≡ o
      → create_upload_url tools p uuid (now +ℤ p.put_ttl) req o ≡ issued up
      → Accepted up
  unfolding Accepted
  create_upload_url-issued none up e h = absurd (cc)
  create_upload_url-issued (some ext) up e h = sized h
    where
      signed :
          (o : Option String)
          → tools.presign (put_object tools p req ext uuid) ≡ o
          → pos 0 <ℤ req.content_length_bytes
          → req.content_length_bytes ≤ℤ p.max_bytes
          → issue_url (now +ℤ p.put_ttl) (object_key tools req.project_id req.station_id ext uuid) o
            ≡ issued up
          → Accepted up
      signed none s low high i = absurd (cc)
      signed (some url) s low high i =
          let same : ◌≡◌ {A = Upload}
              (record {
                upload_url = url;
                r2_key = object_key tools req.project_id req.station_id ext uuid;
                expires_at = (now +ℤ p.put_ttl);
              })
              up =
            cc in
          (
            ext,
            e,
            low,
            high,
            ap (λ (u : Upload). u.r2_key) same,
            rw (← same) s,
            ap (λ (u : Upload). u.expires_at) same,
          )

      sized :
          create_upload_url tools p uuid (now +ℤ p.put_ttl) req (some ext) ≡ issued up → Accepted up
      sized = elim (Bool-cases (leb_ℤ req.content_length_bytes (pos 0))) [
        | inl low ↦ rw low (λ i. absurd (cc))
        | inr low ↦ elim (Bool-cases (ltb_ℤ p.max_bytes req.content_length_bytes)) [
          | inl high ↦ rw (low, high) (λ i. absurd (cc))
          | inr high ↦
              rw (low, high)
                (signed (tools.presign (put_object tools p req ext uuid)) refl (ground arith)
                  (ground arith))
        ]
      ]

  station_check :
      (rest : Issue) (up : Upload)
      → (if str_eq req.station_id ""
          then rest
          else require_uuid tools req.station_id "station_id" rest)
        ≡ issued up
      → ((req.station_id ≡ "") ⊎ (tools.is_uuid req.station_id ≡ true)) × (rest ≡ issued up)
  station_check rest up = chosen (str_eq req.station_id "") refl
    where
      chosen :
          (b : Bool)
          → str_eq req.station_id "" ≡ b
          → (if b then rest else require_uuid tools req.station_id "station_id" rest) ≡ issued up
          → ((req.station_id ≡ "") ⊎ (tools.is_uuid req.station_id ≡ true)) × (rest ≡ issued up)
      chosen true e h = (inl ((eq_iff req.station_id "").0 e), h)
      chosen false e h =
          let (a, u, r) = require_uuid-issued req.station_id "station_id" rest up h in (inr u, r)

  pub create_photo_upload-IsSignable :
      (up : Upload)
      → create_photo_upload tools (some p) uuid now req ≡ issued up
      → IsSignable tools p uuid req up × (up.expires_at ≡ (now +ℤ p.put_ttl))
  unfolding create_photo_upload Accepted
  create_photo_upload-IsSignable up h =
      let url =
        create_upload_url tools p uuid (now +ℤ p.put_ttl) req (extension_of req.content_type) in
      let (given, is_id, h1) =
        require_uuid-issued req.project_id "project_id"
          (if str_eq req.station_id ""
            then url
            else require_uuid tools req.station_id "station_id" url)
          up h in
      let (station, h2) = station_check url up h1 in
      let (ext, allowed, low, high, key, signed, e) =
        create_upload_url-issued (extension_of req.content_type) up refl h2 in
      (
        record {
          project_given = given;
          project_uuid = is_id;
          station_uuid = station;
          ext = ext;
          allowed = allowed;
          positive = low;
          bounded = high;
          key = key;
          presigned = signed;
        },
        sym e,
      )

  url_for :
      (up : Upload)
      → IsSignable tools p uuid req up
      → up.expires_at ≡ (now +ℤ p.put_ttl)
      → create_upload_url tools p uuid (now +ℤ p.put_ttl) req (extension_of req.content_type)
        ≡ issued up
  url_for up k e =
      let low : leb_ℤ req.content_length_bytes (pos 0) ≡ false =
        let a = k.positive in ground arith in
      let high : ltb_ℤ p.max_bytes req.content_length_bytes ≡ false =
        let a = k.bounded in ground arith in
      rw (k.allowed, low, high, k.presigned, k.key, ← e) refl

  pub IsSignable-create_photo_upload :
      (up : Upload)
      → IsSignable tools p uuid req up
      → up.expires_at ≡ (now +ℤ p.put_ttl)
      → create_photo_upload tools (some p) uuid now req ≡ issued up
  unfolding create_photo_upload
  IsSignable-create_photo_upload up k e =
      rw
        (
          create_photo_upload,
          url_for up k e,
          str_eq-false req.project_id "" k.project_given,
          k.project_uuid,
        )
        (stations k.station_uuid)
    where
      stations :
          (req.station_id ≡ "") ⊎ (tools.is_uuid req.station_id ≡ true)
          → (if str_eq req.station_id ""
              then issued up
              else require_uuid tools req.station_id "station_id" (issued up))
            ≡ issued up
      stations (inl none_given) = rw ((eq_iff req.station_id "").1 none_given) refl
      stations (inr u) = elim (Bool-cases (str_eq req.station_id "")) [
        | inl e' ↦ rw e' refl
        | inr e' ↦ rw (e', u) refl
      ]
