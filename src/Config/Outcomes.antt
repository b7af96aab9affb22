-- ===== src/Config/Outcomes.antt =====
-- When load of src/config/config_manager.cpp succeeds, and what it leaves behind when it fails.
use silicon.Prelude.{◌≡◌, refl, ap, true, false, some, none, Option, arith, [], ◌∙◌}
use silicon.Text.{Str}
use silicon.Platform.{JsonLib, Os}
use silicon.Config.State.{ConfigManager, apply_defaults}
use silicon.Config.Parse.{parse_json_locked}
use silicon.Config.Load.{load, accept_json, after_read, read_policy, reset}

module _ (J : JsonLib) (O : Os) (d : O.Disk) where
  -- The file passes the checks, and holds a JSON object.
  abbrev pub IsPolicy : Str → J.Json → Type 0
  IsPolicy path json =
      (text : Str) × (read_policy J O d path ≡ some text)
      × (J.parse text ≡ some json)
      × (J.is_object json ≡ true)

  -- The manager after a policy was accepted.
  abbrev pub loaded : ConfigManager J → J.Json → ConfigManager J
  loaded c json = record c {
    settings = (parse_json_locked J O d (apply_defaults O d) json).0;
    config_snapshot = some json;
  }

  accepted :
      (c : ConfigManager J) (o : Option J.Json)
      → (accept_json J O d c o).1 ≡ true
      → (json : J.Json) × (o ≡ some json) × (J.is_object json ≡ true)
  unfolding accept_json
  accepted c none h = absurd (ground arith)
  accepted c (some json) h = (json, refl, ground arith)

  accept_object :
      (c : ConfigManager J) (json : J.Json)
      → J.is_object json ≡ true
      → accept_json J O d c (some json) ≡ (
        record c {
          settings = (parse_json_locked J O d c.settings json).0;
          config_snapshot = some json;
        },
        true,
      )
  unfolding accept_json
  accept_object c json k = rw k refl

  refused :
      (c : ConfigManager J) (o : Option J.Json)
      → (accept_json J O d c o).1 ≡ false
      → (accept_json J O d c o).0 ≡ c
  unfolding accept_json
  refused c none h = refl
  refused c (some json) h = ground arith

  after_read-accepted :
      (c : ConfigManager J) (o : Option Str)
      → (after_read J O d c o).1 ≡ true
      → (text : Str) × (json : J.Json) × (o ≡ some text)
        × (J.parse text ≡ some json)
        × (J.is_object json ≡ true)
  unfolding after_read
  after_read-accepted c none h = absurd (ground arith)
  after_read-accepted c (some text) h =
      let (json, e, k) = accepted c (J.parse text) h in (text, json, refl, e, k)

  after_read-refused :
      (c : ConfigManager J) (o : Option Str)
      → (after_read J O d c o).1 ≡ false
      → (after_read J O d c o).0 ≡ c
  unfolding after_read
  after_read-refused c none h = refl
  after_read-refused c (some text) h = refused c (J.parse text) h

  -- load() returns true only if the file is there, is at most 1 MiB long, opens, parses and holds
  -- an object.
  pub load-accepted :
      (c : ConfigManager J)
      → (load J O d c).1 ≡ true
      → (json : J.Json) × IsPolicy c.config_path json
  unfolding load reset
  load-accepted c h =
      let (text, json, r, p, k) =
        after_read-accepted (reset J O d c) (read_policy J O d c.config_path) h in
      (json, (text, r, p, k))

  -- For such a file load() returns true, with the settings read from it over the defaults.
  pub load-policy :
      (c : ConfigManager J) (json : J.Json)
      → IsPolicy c.config_path json
      → load J O d c ≡ (loaded c json, true)
  unfolding load reset
  load-policy c json (text, r, p, k) =
      ap (after_read J O d (reset J O d c)) r
      ∙ ap (accept_json J O d (reset J O d c)) p
      ∙ accept_object (reset J O d c) json k

  -- A load that fails, for whatever reason, leaves the defaults and an empty snapshot: nothing of
  -- the policy that was there before.
  pub load-refused :
      (c : ConfigManager J)
      → (load J O d c).1 ≡ false
      → (load J O d c).0
        ≡ record c { settings = apply_defaults O d; config_snapshot = some (J.object []) }
  unfolding load reset
  load-refused c h = after_read-refused (reset J O d c) (read_policy J O d c.config_path) h
