-- ===== src/Agent/Files/Confined.antt =====
-- Uploads and downloads stay below the two directories.
use m_cloud.Base.{
  ◌≡◌, ◌⊎◌, refl, sym, inl, inr, true, false, not, List, [], ◌∷◌, ◌++◌, append-nil, arith, Text,
  codes, starts_with, All, All-weaken, eqb, ◌&&◌, Bool-cases, Option-cases, joined,
}
use mathlib.Core.Path.{subst}
use m_cloud.Protocol.{FileUpload}
use m_cloud.Agent.CleanPath.{clean}
use m_cloud.Agent.CleanPath.Laws.{IsBelow, clean-IsBelow}
use m_cloud.Agent.Files.{
  Call, write, failed_write, chmod, Os, permitted, mode_calls, handle_file_upload,
  handle_file_download, outside, special_bits, parse_octal,
}

-- The path leads down from /tmp or from /opt/multi-ops, and never up.
abbrev pub IsInside : Text → Type 0
IsInside path =
    IsBelow (codes "tmp" ∷ []) path ⊎ IsBelow (codes "opt" ∷ codes "multi-ops" ∷ []) path

abbrev pub target : Call → Text
target (write path content) = path
target (failed_write path content) = path
target (chmod path mode) = path

permitted-IsInside : (path : Text) → permitted (clean path) ≡ true → IsInside (clean path)
unfolding permitted
permitted-IsInside path h = elim (Bool-cases (starts_with (clean path) (codes "/tmp/"))) [
  | inl e ↦ inl (clean-IsBelow path (codes "tmp") [] (omega arith) (unfold joined in e))
  | inr e ↦ inr (
      clean-IsBelow path (codes "opt") (codes "multi-ops" ∷ []) (omega arith)
        (unfold joined in rw e at h))
]

mode_calls-target : (path mode : Text) → All (λ c. target c ≡ path) (mode_calls path mode)
unfolding mode_calls
mode_calls-target path [] = tt
mode_calls-target path (c ∷ s) = elim (Option-cases (parse_octal (c ∷ s))) [
  | inl q ↦ rw (q, mode_calls) tt
  | inr (m, q) ↦ elim (Bool-cases (eqb (special_bits m) 0)) [
    | inl b ↦ rw (q, b, mode_calls) (refl, tt)
    | inr b ↦ rw (q, b, mode_calls) tt
  ]
]

-- An upload changes files at most by calls on one path, the cleaned path of the request, and only
-- if that leads down from /tmp or from /opt/multi-ops and never up, whatever path the request names
-- and whatever the system answers; what was done before it stays done.
pub handle_file_upload-IsInside :
    (os : Os) (id : Text) (req : FileUpload) (history : List Call)
    → (calls : List Call) × ((handle_file_upload os id req history).1 ≡ history ++ calls)
      × All (λ c. (target c ≡ clean req.path) × IsInside (target c)) calls
unfolding handle_file_upload
handle_file_upload-IsInside os id req history = elim (Bool-cases (permitted (clean req.path))) [
  | inr p ↦ rw (p, handle_file_upload) ([], sym (append-nil history), tt)
  | inl p ↦ elim (Bool-cases (os.exists history (clean req.path) && not req.overwrite)) [
    | inl b ↦ rw (p, b, handle_file_upload) ([], sym (append-nil history), tt)
    | inr b ↦ elim (Option-cases (os.write_error history (clean req.path) req.content)) [
      | inr (e, w) ↦
          rw (p, b, w, handle_file_upload)
            (
              failed_write (clean req.path) req.content ∷ [],
              refl,
              ((refl, permitted-IsInside req.path p), tt),
            )
      | inl w ↦
          let inside : IsInside (clean req.path) = permitted-IsInside req.path p in
          rw (p, b, w, handle_file_upload)
            (
              write (clean req.path) req.content ∷ mode_calls (clean req.path) req.mode,
              refl,
              (
                (refl, inside),
                All-weaken (λ c. target c ≡ clean req.path)
                    (λ c. (target c ≡ clean req.path) × IsInside (target c))
                    (mode_calls (clean req.path) req.mode)
                    (λ c e. (e, subst IsInside (sym e) inside))
                    (mode_calls-target (clean req.path) req.mode),
              ),
            )
    ]
  ]
]

-- A download either answers for a path that leads down from /tmp or from /opt/multi-ops and never
-- up, or it fails with the fixed message and no content, the same for every system and history: it
-- has read nothing.
pub handle_file_download-IsInside :
    (os : Os) (id path : Text) (history : List Call)
    → IsInside (clean path)
      ⊎ (handle_file_download os id path history ≡ record {
        agent_id = id;
        path = path;
        content = [];
        size = 0;
        success = false;
        error = outside;
      })
unfolding handle_file_download
handle_file_download-IsInside os id path history = elim (Bool-cases (permitted (clean path))) [
  | inl p ↦ inl (permitted-IsInside path p)
  | inr p ↦ inr (rw (p, handle_file_download) refl)
]
