-- ===== src/Filesystem/Mounts.antt =====
-- Which volumes monitor_volumes of src/filesystem/filesystem_enforcer.cpp reports.
use silicon.Prelude.{
  ◌+◌, ◌≡◌, refl, Bool, Option, List, [], ◌∷◌, arith, length, if◌then◌else◌, not, ◌&&◌, ◌||◌, ◌∙◌,
  keep,
}
use silicon.Text.{Str, mem}
use silicon.Config.State.{Settings}
use silicon.Filesystem.Types.{FileSystem, Scan}
use silicon.Filesystem.Helpers.{is_permission_error}
use silicon.Filesystem.Policy.{is_mount_allowed}
use silicon.Filesystem.Frame.{emit-SameBut}
use silicon.Filesystem.Volumes.{
  collect_mounts, check_mount, check_mounts, report_volume, handle_listing, monitor_volumes,
  add_line, volume_message,
}

module _ (fs : FileSystem) (config : Option Settings) where
  -- A mount to report: not known from the scan before, and not allowed.
  abbrev pub is_intruder : List Str → Str → Bool
  is_intruder known mount = not (mem mount known) && not (is_mount_allowed config mount)

  report_volume-new_mounts :
      (mount : Str) (s : Scan)
      → (report_volume fs config mount s).stats.new_mounts_detected
        ≡ s.stats.new_mounts_detected + 1
  unfolding report_volume add_line
  report_volume-new_mounts mount s = (emit-SameBut fs config (volume_message mount) _).new_mounts

  check_mount-new_mounts :
      (known : List Str) (mount : Str) (s : Scan)
      → (check_mount fs config known mount s).stats.new_mounts_detected
        ≡ s.stats.new_mounts_detected + (if is_intruder known mount then 1 else 0)
  unfolding check_mount add_line
  check_mount-new_mounts known mount s = ground (arith, report_volume-new_mounts mount s)

  check_mounts-new_mounts :
      (known mounts : List Str) (s : Scan)
      → (check_mounts fs config known mounts s).stats.new_mounts_detected
        ≡ s.stats.new_mounts_detected + length (keep (is_intruder known) mounts)
  unfolding check_mounts keep
  check_mounts-new_mounts known [] s = omega arith
  check_mounts-new_mounts known (mount ∷ mounts) s = ground (
    arith,
    check_mounts-new_mounts known mounts (check_mount fs config known mount s),
    check_mount-new_mounts known mount s,
  )

  report_volume-keeps :
      (mount : Str) (s : Scan)
      → ((report_volume fs config mount s).stats.permission_errors ≡ s.stats.permission_errors)
        × ((report_volume fs config mount s).known_mounts_initialized ≡ s.known_mounts_initialized)
  unfolding report_volume add_line
  report_volume-keeps mount s =
      let r = emit-SameBut fs config (volume_message mount) _ in (r.denied, r.ready)

  check_mount-keeps :
      (known : List Str) (mount : Str) (s : Scan)
      → ((check_mount fs config known mount s).stats.permission_errors ≡ s.stats.permission_errors)
        × ((check_mount fs config known mount s).known_mounts_initialized
            ≡ s.known_mounts_initialized)
  unfolding check_mount add_line
  check_mount-keeps known mount s =
      let (a, b) = report_volume-keeps mount s in (ground (arith, a), ground (arith, b))

  check_mounts-keeps :
      (known mounts : List Str) (s : Scan)
      → ((check_mounts fs config known mounts s).stats.permission_errors
          ≡ s.stats.permission_errors)
        × ((check_mounts fs config known mounts s).known_mounts_initialized
            ≡ s.known_mounts_initialized)
  unfolding check_mounts
  check_mounts-keeps known [] s = (refl, refl)
  check_mounts-keeps known (mount ∷ mounts) s =
      let (a, b) = check_mount-keeps known mount s in
      let (c, d) = check_mounts-keeps known mounts (check_mount fs config known mount s) in
      (c ∙ a, d ∙ b)

  -- The scan as the loop over the volumes meets it.
  abbrev with_listing : Scan → List Str → Scan
  with_listing s current = record s {
    stats = record (s.stats) {
      permission_errors =
          s.stats.permission_errors + (fs.list_directories s.volumes_root).permission_errors;
      mounts_seen = length current;
    };
  }

  -- After monitor_volumes, on every branch: if the volumes could be listed, those of this scan are the
  -- known ones; a volume that was not known is counted once unless the policy allows it, but none in
  -- the first scan; and the permission errors of the listing are counted, with one more when the
  -- listing failed for want of permission.
  pub monitor_volumes-branches :
      (s : Scan)
      → let l = fs.list_directories s.volumes_root in
        let current = collect_mounts [] l.directories in
        let t = monitor_volumes fs config s in
        (t.known_mounts ≡ (if l.listed then current else s.known_mounts))
        × (t.known_mounts_initialized ≡ (l.listed || s.known_mounts_initialized))
        × (t.stats.new_mounts_detected
            ≡ s.stats.new_mounts_detected
              + (if l.listed && s.known_mounts_initialized
                  then length (keep (is_intruder s.known_mounts) current)
                  else 0))
        × (t.stats.permission_errors
            ≡ s.stats.permission_errors
              + l.permission_errors
              + (if not l.listed && is_permission_error l.error_code then 1 else 0))
  unfolding monitor_volumes handle_listing add_line
  monitor_volumes-branches s =
      let current = collect_mounts [] (fs.list_directories s.volumes_root).directories in
      let counted = check_mounts-new_mounts s.known_mounts current (with_listing s current) in
      let (denied, ready) = check_mounts-keeps s.known_mounts current (with_listing s current) in
      (ground arith, ground (arith, ready), ground (arith, counted), ground (arith, denied))
