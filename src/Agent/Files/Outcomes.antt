-- ===== src/Agent/Files/Outcomes.antt =====
-- What an upload and a download report, on every branch.
use m_cloud.Agent.Files.Modes.{mode_calls_plain}
use m_cloud.Base.{
  ◌≡◌, ◌⊎◌, refl, true, false, not, ◌&&◌, List, [], ◌∷◌, ◌++◌, arith, Text, Bool, none, some, ℕ,
  ◌<◌, ◌/◌, ◌^◌, eqb, codes, starts_with, ◌||◌, if◌then◌else◌,
}
use m_cloud.Protocol.{FileUpload, FileUploadResp}
use m_cloud.Agent.CleanPath.{clean}
use m_cloud.Agent.Files.{
  Call, write, failed_write, Os, permitted, mode_calls, handle_file_upload, parse_octal, chmod,
}

mode_unread : (path text : Text) → parse_octal text ≡ none → mode_calls path text ≡ []
unfolding mode_calls
mode_unread path [] p = refl
mode_unread path (c ∷ s) p = rw (p, mode_calls) refl

mode_read :
    (path text : Text) (mode : ℕ)
    → parse_octal text ≡ some mode
    → mode < 2 ^ 12
    → mode_calls path text ≡ (if eqb (mode / 2 ^ 9) 0 then chmod path mode ∷ [] else [])
mode_read path [] mode p small = absurd (unfold parse_octal in cc p)
mode_read path (c ∷ s) mode p small = mode_calls_plain path c s mode p small

-- An upload is answered, and changes files, as follows, and these cases are all there are. The path
-- is not permitted, or it is taken and may not be overwritten: an error, and no call that changes a
-- file. The system fails to write: its error, and that failed write is the only call. Else success:
-- the contents are written. No mode is set then if the mode sent is no octal number, and one below
-- 4096 is set as it is, but not if it has one of the bits 9 to 11. The response names the agent and
-- the path as it was sent.
pub handle_file_upload_lem :
    (os : Os) (id : Text) (req : FileUpload) (history : List Call)
    → let done = handle_file_upload os id req history in
      let answer = λ (success : Bool) (error : Text).
        ◌≡◌ {A = FileUploadResp} done.0
          (record { agent_id = id; path = req.path; success = success; error = error }) in
      let path = clean req.path in
      let inside = starts_with path (codes "/tmp/") || starts_with path (codes "/opt/multi-ops/") in
      (inside ≡ false
        → answer false (codes "path must be under /tmp/ or /opt/multi-ops/") × (done.1 ≡ history))
      × (inside ≡ true
          → os.exists history path ≡ true
          → req.overwrite ≡ false
          → answer false (codes "file already exists") × (done.1 ≡ history))
      × (inside ≡ true
          → ((os.exists history path ≡ false) ⊎ (req.overwrite ≡ true))
          → ((error : Text)
              → os.write_error history path req.content ≡ some error
              → answer false error × (done.1 ≡ history ++ failed_write path req.content ∷ []))
            × (os.write_error history path req.content ≡ none
                → answer true []
                  × ((rest : List Call) × (done.1 ≡ history ++ write path req.content ∷ rest)
                      × (parse_octal req.mode ≡ none → rest ≡ [])
                      × ((mode : ℕ)
                          → parse_octal req.mode ≡ some mode
                          → mode < 2 ^ 12
                          → rest ≡ (if eqb (mode / 2 ^ 9) 0 then chmod path mode ∷ [] else [])))))
unfolding handle_file_upload permitted
handle_file_upload_lem os id req history = (
  λ p. rw (p, handle_file_upload) (refl, refl),
  λ p there keep. rw (p, there, keep, handle_file_upload) (refl, refl),
  λ p free.
      let b : (os.exists history (clean req.path) && not req.overwrite) ≡ false = ground arith in
      (
        λ error w. rw (p, b, w, handle_file_upload) (refl, refl),
        λ w.
            rw (p, b, w, handle_file_upload)
              (
                refl,
                (
                  mode_calls (clean req.path) req.mode,
                  refl,
                  mode_unread (clean req.path) req.mode,
                  mode_read (clean req.path) req.mode,
                ),
              ),
      ),
)
