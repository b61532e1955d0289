-- ===== src/Agent/Files.antt =====
-- handleFileUpload and handleFileDownload of cmd/agent/main.go. The operating system answers from
-- what was done to it before: `history` lists the calls that change files, oldest first; a call of
-- os.WriteFile that fails is one of them, since it may leave the file truncated or partly written.
-- Symbolic links are the operating system's matter. os.Chmod is taken down to the mode bits that Go
-- sets.
pub mod Confined
pub mod Outcomes
pub mod Modes
use m_cloud.Base.{
  ℕ, zero, suc, ◌+◌, ◌-◌, ◌*◌, ◌/◌, ◌%◌, ◌^◌, Bool, true, false, not, ◌&&◌, ◌||◌, List, [], ◌∷◌,
  ◌++◌, Text, codes, ◌==◌, starts_with, eqb, leb, ltb, if◌then◌else◌, Option, none, some, Result,
  ok, err, length,
}
use m_cloud.Protocol.{FileUpload, FileUploadResp, FileDownloadResp}
use m_cloud.Agent.CleanPath.{clean}

pub data Call : Type 0 where
  write : Text → Text → Call
  failed_write : Text → Text → Call
  chmod : Text → ℕ → Call

-- os.Stat (whether it succeeds), os.WriteFile (its error) and os.ReadFile.
pub record Os : Type 0 where
  pub exists : List Call → Text → Bool
  pub write_error : List Call → Text → Text → Option Text
  pub read_file : List Call → Text → Result Text Text

unfoldable pub permitted : Text → Bool
permitted path = starts_with path (codes "/tmp/") || starts_with path (codes "/opt/multi-ops/")

abbrev pub outside : Text
outside = codes "path must be under /tmp/ or /opt/multi-ops/"

abbrev pub occupied : Text
occupied = codes "file already exists"

-- The loop of strconv.ParseUint(s, 8, 32) over the digits.
unfoldable pub octal_digits : ℕ → Text → Option ℕ
octal_digits acc [] = some acc
octal_digits acc (c ∷ s) =
    let rest = octal_digits (acc * 8 + (c - 48)) s in
    if leb 48 c && leb c 55 then if ltb (acc * 8 + (c - 48)) (2 ^ 32) then rest else none else none

unfoldable pub parse_octal : Text → Option ℕ
unfolding octal_digits
parse_octal [] = none
parse_octal (c ∷ s) = octal_digits 0 (c ∷ s)

-- mode & 0o7000, as a number of three bits
unfoldable pub special_bits : ℕ → ℕ
special_bits mode = mode / 2 ^ 9 % 8

-- The bits that os.Chmod passes to the system for an os.FileMode: the permissions, and setuid,
-- setgid and sticky from bits 23, 22 and 20.
unfoldable pub system_mode : ℕ → ℕ
system_mode mode =
    mode % 2 ^ 9
    + 0o4000 * (mode / 2 ^ 23 % 2)
    + 0o2000 * (mode / 2 ^ 22 % 2)
    + 0o1000 * (mode / 2 ^ 20 % 2)

-- The part of handleFileUpload that sets the mode.
unfoldable pub mode_calls : Text → Text → List Call
mode_calls path [] = []
mode_calls path (c ∷ s) = elim (parse_octal (c ∷ s)) [
  | none ↦ []
  | some mode ↦ if not (eqb (special_bits mode) 0) then [] else chmod path (system_mode mode) ∷ []
]

abbrev pub upload_resp : Text → Text → Bool → Text → FileUploadResp
upload_resp id path success error = record {
  agent_id = id;
  path = path;
  success = success;
  error = error;
}

module _ (os : Os) (id : Text) where
  unfoldable pub handle_file_upload : FileUpload → List Call → FileUploadResp × List Call
  handle_file_upload req history =
      let clean_path = clean req.path in
      if not (permitted clean_path)
      then (upload_resp id req.path false outside, history)
      else if os.exists history clean_path && not req.overwrite
      then (upload_resp id req.path false occupied, history)
      else elim (os.write_error history clean_path req.content) [
        | some error ↦ (
          upload_resp id req.path false error,
          history ++ failed_write clean_path req.content ∷ [],
        )
        | none ↦ (
          upload_resp id req.path true [],
          history ++ write clean_path req.content ∷ mode_calls clean_path req.mode,
        )
      ]

  unfoldable pub handle_file_download : Text → List Call → FileDownloadResp
  handle_file_download path history =
      let clean_path = clean path in
      if not (permitted clean_path)
      then record {
        agent_id = id;
        path = path;
        content = [];
        size = 0;
        success = false;
        error = outside;
      }
      else elim (os.read_file history clean_path) [
        | err e ↦ record {
          agent_id = id;
          path = path;
          content = [];
          size = 0;
          success = false;
          error = e;
        }
        | ok content ↦ record {
          agent_id = id;
          path = path;
          content = content;
          size = length content;
          success = true;
          error = [];
        }
      ]
