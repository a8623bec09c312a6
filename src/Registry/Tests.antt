-- ===== src/Registry/Tests.antt =====
-- Runs of the client registry, and its theorems at concrete clients.
use remerge.Prelude.{true, false, none, some, [], ◌∷◌, ◌≡◌, ◌↔◌, refl, ok, err, is_ok, nat_eq}
use remerge.Prelude.Text.{codes, text_eq}
use remerge.Prelude.Dict.{get}
use remerge.Types.Client.{main, follower, ClientState}
use remerge.Types.Samples.{config, host}
use remerge.Registry.{
  ClientRegistry, Hashing, hash_json, update, store, set_active_workorder, active_workorder,
  config_mismatch, no_main_client,
}
use remerge.Registry.Admission.{
  IsAdmissible, IsRecorded, update-is_ok_iff, update-IsRecorded, update-set_active,
}

-- Hashes that keep the profile and the compiler version apart.
abbrev toy : Hashing
toy = record {
  config_json = λ c. some c.profile;
  system_json = λ s. some s.gcc_version;
  sha256_hex = λ t. t;
}

abbrev entry : ClientState
entry = record {
  client_id = 7;
  config_hash = codes "p";
  system_hash = codes "13.2.0";
  last_seen = 1;
  active_workorder = none;
}

abbrev one_client : ClientRegistry
one_client = (7, entry) ∷ []

follower_first : update toy 7 follower (config (codes "p")) host 5 [] ≡ err no_main_client
unfolding update get
follower_first = refl

follower_differs :
    update toy 7 follower (config (codes "q")) host 5 one_client ≡ err config_mismatch
unfolding update get
follower_differs = refl

update-is_ok_iff_example :
    (is_ok (update toy 7 follower (config (codes "p")) host 5 one_client) ≡ true)
    ↔ IsAdmissible (get 7 one_client) follower (codes "p") (codes "13.2.0")
unfolding hash_json
update-is_ok_iff_example = update-is_ok_iff toy 7 follower (config (codes "p")) host 5 one_client

admitted :
    update toy 7 main (config (codes "q")) host 5 one_client
    ≡ ok (
      record { portage_changed = true; system_changed = false },
      store 7 main (codes "q") (codes "13.2.0") 5 one_client,
    )
unfolding update get
admitted = refl

update-IsRecorded_example :
    IsRecorded
      (get 7 (store 7 main (codes "q") (codes "13.2.0") 5 one_client))
      (codes "q")
      (codes "13.2.0")
      5
unfolding hash_json
update-IsRecorded_example =
    (update-IsRecorded toy 7 main (config (codes "q")) host 5 one_client _ _ admitted).1

known : get 7 one_client ≡ some entry
unfolding get
known = refl

update-set_active_example :
    update toy 7 main (config (codes "q")) host 9 (set_active_workorder 7 42 one_client)
    ≡ err (active_workorder 42)
update-set_active_example =
    update-set_active toy 7 one_client entry known 42 main (config (codes "q")) host 9
