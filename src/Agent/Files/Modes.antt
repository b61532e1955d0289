-- ===== src/Agent/Files/Modes.antt =====
-- The mode of an uploaded file, and a hole in the check of it.
use m_cloud.Base.{ℕ, ◌/◌, ◌%◌, ◌^◌, ◌<◌, ◌≡◌, refl, [], ◌∷◌, arith, Text, eqb, if◌then◌else◌, some}
use m_cloud.Agent.Files.{chmod, parse_octal, special_bits, system_mode, mode_calls}

-- A mode string whose number has bit 23 set and bits 9 to 11 clear passes the check, and the file
-- is given the setuid bit.
pub mode_calls_setuid :
    (path text : Text) (mode : ℕ)
    → parse_octal text ≡ some mode
    → mode / 2 ^ 23 % 2 ≡ 1
    → mode / 2 ^ 9 % 8 ≡ 0
    → (bits : ℕ) × (mode_calls path text ≡ chmod path bits ∷ []) × (bits / 0o4000 % 2 ≡ 1)
unfolding mode_calls special_bits
mode_calls_setuid path [] mode p set clear = absurd (unfold parse_octal in cc p)
mode_calls_setuid path (c ∷ s) mode p set clear =
    (system_mode mode, rw (p, clear, mode_calls) refl, unfold system_mode in omega arith)

-- A mode below 2^12 never sets a special bit: those that ask for one are dropped, and of the others
-- the file gets exactly the permissions asked for.
pub mode_calls_plain :
    (path : Text) (c : ℕ) (s : Text) (mode : ℕ)
    → parse_octal (c ∷ s) ≡ some mode
    → mode < 2 ^ 12
    → mode_calls path (c ∷ s) ≡ (if eqb (mode / 2 ^ 9) 0 then chmod path mode ∷ [] else [])
unfolding mode_calls special_bits system_mode
mode_calls_plain path c s mode p small = rw (p, mode_calls) (ground arith)
