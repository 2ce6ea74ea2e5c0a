-- ===== src/Version/Tests.antt =====
-- Versions of the tool.
use chaosblade_operator.Base.{◌≡◌, inl, inr, refl, true, false, some, arith, pos, atoi}
use chaosblade_operator.Version.{
  init, check_version_have_cri_command, check_version_have_cri_command_iff,
}

runs :
    (check_version_have_cri_command "1.5.0" ≡ true)
    × (check_version_have_cri_command "1.4.9" ≡ false)
    × (check_version_have_cri_command "1.5" ≡ false)
    × (check_version_have_cri_command "unknown" ≡ false)
    × (check_version_have_cri_command "2.x.0" ≡ true)
unfolding check_version_have_cri_command
runs = (refl, refl, refl, refl, refl)

combined :
    init "1.7.2,community" (record { version = "unknown"; product = "" })
    ≡ record { version = "1.7.2"; product = "community" }
unfolding init
combined = refl

parsed : (atoi "1" ≡ some (pos 1)) × (atoi "7" ≡ some (pos 7)) × (atoi "2" ≡ some (pos 2))
unfolding atoi
parsed = (refl, refl, refl)

check_version_have_cri_command_iff_example : check_version_have_cri_command "1.7.2" ≡ true
check_version_have_cri_command_iff_example =
    (check_version_have_cri_command_iff "1" "7" "2" (pos 1) (pos 7) (pos 2) (ground arith)
        (ground arith) (ground arith) parsed.0 parsed.1 parsed.2).1
      (inr (refl, inl (omega arith)))
