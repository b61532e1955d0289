-- ===== src/Tests/Uploads.antt =====
-- Files sent to an agent whose disk is empty and takes every write.
use m_cloud.Base.{
  ℕ, ◌/◌, ◌%◌, ◌≡◌, ◌⊎◌, refl, true, false, List, [], ◌∷◌, ◌++◌, All, Text, codes, ◌==◌, none, err,
  starts_with, joined, split, Bool, some, ◌<◌, ◌^◌, eqb, ◌||◌, if◌then◌else◌,
}
use m_cloud.Protocol.{FileUpload, FileUploadResp}
use m_cloud.Agent.CleanPath.{clean}
use m_cloud.Agent.Files.{
  Call, write, chmod, Os, parse_octal, mode_calls, handle_file_upload, failed_write,
}
use m_cloud.Agent.Files.Confined.{IsInside, target, handle_file_upload-IsInside}
use m_cloud.Agent.Files.Outcomes.{handle_file_upload_lem}
use m_cloud.Agent.Files.Modes.{mode_calls_setuid}

abbrev pub empty_disk : Os
empty_disk = record {
  exists = λ history path. false;
  write_error = λ history path content. none;
  read_file = λ history path. err (codes "no such file");
}

-- A path that steps out of /tmp and in again.
abbrev winding : Text
winding = codes "/tmp/../tmp/./a"

abbrev upload : FileUpload
upload = record { path = winding; content = codes "x"; mode = codes "644"; overwrite = false }

winding-clean : clean winding ≡ codes "/tmp/a"
unfolding clean ◌==◌ starts_with joined split
winding-clean = refl

escaping_clean : clean (codes "/tmp/../etc/passwd") ≡ codes "/etc/passwd"
unfolding clean ◌==◌ starts_with joined split
escaping_clean = refl

handle_file_upload-IsInside_example :
    (calls : List Call) × ((handle_file_upload empty_disk (codes "web1") upload ([])).1
      ≡ ([]) ++ calls)
    × All (λ c. (target c ≡ clean upload.path) × IsInside (target c)) calls
handle_file_upload-IsInside_example =
    handle_file_upload-IsInside empty_disk (codes "web1") upload []

handle_file_upload_lem_example :
    let done = handle_file_upload empty_disk (codes "web1") upload ([]) in
    let answer = λ (success : Bool) (error : Text). ◌≡◌ {A = FileUploadResp} done.0 (record {
      agent_id = (codes "web1");
      path = upload.path;
      success = success;
      error = error;
    }) in
    let path = clean upload.path in
    let inside = starts_with path (codes "/tmp/") || starts_with path (codes "/opt/multi-ops/") in
    (inside ≡ false
      → answer false (codes "path must be under /tmp/ or /opt/multi-ops/") × (done.1 ≡ ([])))
    × (inside ≡ true
        → empty_disk.exists ([]) path ≡ true
        → upload.overwrite ≡ false
        → answer false (codes "file already exists") × (done.1 ≡ ([])))
    × (inside ≡ true
        → ((empty_disk.exists ([]) path ≡ false) ⊎ (upload.overwrite ≡ true))
        → ((error : Text)
            → empty_disk.write_error ([]) path upload.content ≡ some error
            → answer false error × (done.1 ≡ ([]) ++ failed_write path upload.content ∷ []))
          × (empty_disk.write_error ([]) path upload.content ≡ none
              → answer true []
                × ((rest : List Call) × (done.1 ≡ ([]) ++ write path upload.content ∷ rest)
                    × (parse_octal upload.mode ≡ none → rest ≡ [])
                    × ((mode : ℕ)
                        → parse_octal upload.mode ≡ some mode
                        → mode < 2 ^ 12
                        → rest ≡ (if eqb (mode / 2 ^ 9) 0 then chmod path mode ∷ [] else [])))))
handle_file_upload_lem_example = handle_file_upload_lem empty_disk (codes "web1") upload []

mode_calls_setuid_example :
    (bits : ℕ) × (mode_calls winding (codes "40000755") ≡ chmod winding bits ∷ [])
    × (bits / 0o4000 % 2 ≡ 1)
unfolding parse_octal
mode_calls_setuid_example = mode_calls_setuid winding (codes "40000755") 0o40000755 refl refl refl
