-- ===== src/Tests/Satellites.antt =====
-- The handlers for satellites on a server that gives a key.
use coder_cli.Prelude.{◌≡◌, refl, true, some, [], ◌∷◌, All, length, ◌≤◌}
use coder_cli.Prelude.Texts.{Bytes, codes}
use coder_cli.Prelude.Results.{ok, err}
use coder_cli.Cmd.Satellites.{canceled, SatelliteEnv, create_satellite, rm_satellite}
use coder_cli.Cmd.Satellites.Laws.{IsApproved, create_satellite_sound}

abbrev answering : Bytes → SatelliteEnv
answering response = record {
  key_url = λ url. some url;
  makes_request = λ url. true;
  gets = λ url. some (200, some (record { key = codes "key"; fingerprint = codes "mark" }));
  scans = some response;
  lower_trimmed = λ s. s;
  creates = λ req. ok tt;
  satellites =
      ok (record { id = codes "s1"; name = codes "west"; fingerprint = codes "mark" } ∷ []);
  deletes = λ id. ok tt;
}

created :
    (create_satellite (answering (codes "yes")) (codes "west") (codes "url")).1
    ≡ record { name = codes "west"; public_key = codes "key" } ∷ []
unfolding create_satellite coder_cli.Prelude.Texts.Bytes-discrete coder_cli.Prelude.ℕ_discrete
created = refl

not_created :
    create_satellite (answering (codes "no")) (codes "west") (codes "url") ≡ (err canceled, [])
unfolding create_satellite coder_cli.Prelude.Texts.Bytes-discrete coder_cli.Prelude.ℕ_discrete
not_created = refl

deleted : rm_satellite (answering []) (codes "west") ≡ (ok tt, codes "s1" ∷ [])
unfolding rm_satellite coder_cli.Prelude.Texts.Bytes-discrete coder_cli.Prelude.ℕ_discrete
deleted = refl

create_satellite_sound_example :
    All
      (IsApproved (answering (codes "yes")) (codes "west") (codes "url"))
      (create_satellite (answering (codes "yes")) (codes "west") (codes "url")).1
    × (length (create_satellite (answering (codes "yes")) (codes "west") (codes "url")).1 ≤ 1)
    × ((create_satellite (answering (codes "yes")) (codes "west") (codes "url")).0 ≡ ok tt
        → length (create_satellite (answering (codes "yes")) (codes "west") (codes "url")).1 ≡ 1)
create_satellite_sound_example =
    create_satellite_sound (answering (codes "yes")) (codes "west") (codes "url")
