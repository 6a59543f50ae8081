-- ===== src/Uploads/Tests.antt =====
-- One photo of 500 bytes.
use Prim.Native.String.{◌++◌ as str_append}
use geo_querry.Prelude.{String, ◌≡◌, ◌↔◌, refl, true, some, List, [], ◌∷◌}
use geo_querry.Prelude.Int.{pos, ◌+ℤ◌}
use geo_querry.Uploads.{Presigner, Tools, PhotoRequest, Upload, issued, create_photo_upload}
use geo_querry.Uploads.Issued.{IsIssued, create_photo_upload_iff}

abbrev slashes : List String → String
slashes [] = ""
slashes (s ∷ []) = s
slashes (s ∷ t ∷ ss) = str_append (str_append s "/") (slashes (t ∷ ss))

abbrev tools : Tools
tools = record {
  is_uuid = λ s. true;
  join = slashes;
  presign = λ put. some (str_append "https://r2/" put.key);
}

abbrev presigner : Presigner
presigner = record { bucket = "photos"; put_ttl = pos 300000; max_bytes = pos 15728640 }

abbrev photo : PhotoRequest
photo = record {
  project_id = "p1";
  station_id = "";
  file_name = "../../x.exe";
  content_type = "image/heic";
  content_length_bytes = pos 500;
}

abbrev upload : Upload
upload = record {
  upload_url = "https://r2/photos/p1/unfiled/u1.heic";
  r2_key = "photos/p1/unfiled/u1.heic";
  expires_at = pos 301000;
}

create_photo_upload_iff_example :
    (create_photo_upload tools (some presigner) "u1" (pos 1000) photo ≡ issued upload)
    ↔ (IsIssued tools presigner "u1" photo upload × (upload.expires_at ≡ pos 1000 +ℤ pos 300000))
create_photo_upload_iff_example =
    create_photo_upload_iff tools presigner "u1" (pos 1000) photo upload

uploaded : create_photo_upload tools (some presigner) "u1" (pos 1000) photo ≡ issued upload
unfolding create_photo_upload ◌+ℤ◌
uploaded = refl
