-- ===== src/Tests/Sqlite.antt =====
-- A household that is written to a database and read back.
use citadel_dnxproxy.Prelude.{
  some, ◌≡◌, true, refl, ◌+◌, ◌*◌, List, [], ◌∷◌, str_eq, if◌then◌else◌, any_by,
}
use mathlib.Core.Option.{none-ne-some}
use citadel_dnxproxy.Prelude.Dict
use citadel_dnxproxy.Prelude.Int.{pos}
use citadel_dnxproxy.Clock.{nanoseconds}
use citadel_dnxproxy.Text.{Text, codes}
use citadel_dnxproxy.Policy.Types.{TimeWindow, User, PolicyData}
use citadel_dnxproxy.Policy.Keys.{put-Fits}
use citadel_dnxproxy.Policy.Columns.{Windows, admin_row}
use citadel_dnxproxy.Policy.Sqlite.{
  Tables, Reads, persist, insert_rows, tables_of, snapshot_unsafe, set_admin_row,
}
use citadel_dnxproxy.Policy.Sqlite.Passwords.{EndsSet, set_admin_row-validate_admin_row}
use citadel_dnxproxy.Policy.Sqlite.RoundTrip.{
  IsKeyed, AreReliable, ReadBack, persist-snapshot_unsafe,
}
use citadel_dnxproxy.Tests.Samples.{empty_data, child, disk_ok}
use citadel_dnxproxy.Tests.Admin.{crypto, sample-KeysMatch}

abbrev mornings : List TimeWindow
mornings = record { name = []; time_span = codes "07:00-12:00" } ∷ []

-- JSON for no window and for one without a name.
abbrev encode_windows : List TimeWindow → Text
encode_windows [] = codes "null"
encode_windows (w ∷ ws) = w.time_span

abbrev windows : Windows
windows = record {
  encode = encode_windows;
  decode = λ t. if str_eq t (codes "null") then [] else record { name = []; time_span = t } ∷ [];
}

abbrev early_child : User
early_child = record child { allow_windows = mornings; created_at = 3 * nanoseconds + 5 }

abbrev household : PolicyData
household = record empty_data { users = (codes "u1", early_child) ∷ [] }

household-IsKeyed : IsKeyed household
unfolding Dict.put Dict.get
household-IsKeyed = record {
  users = (
    (refl, tt),
    put-Fits (λ u. u.id) [] (codes "u1") early_child (λ k v e. absurd (none-ne-some v e)) refl,
  );
  devices = ((refl, tt), sample-KeysMatch.devices);
  sessions = (tt, λ k v e. absurd (none-ne-some v e));
  usage = (tt, λ k v e. absurd (none-ne-some v e));
}

abbrev no_tables : Tables
no_tables = record {
  version = pos 1;
  admin = admin_row empty_data.admin;
  settings = empty_data.settings;
  users = [];
  devices = [];
  domain_rules = [];
  sessions = [];
  usage = [];
  audit = [];
}

-- A database that answers every query.
abbrev reads : Reads
reads = record {
  version = true;
  admin = true;
  settings = true;
  users = λ r. true;
  devices = λ r. true;
  domain_rules = λ r. true;
  sessions = λ r. true;
  usage = λ r. true;
  audit_query = true;
  audit = λ r. true;
}

reads-AreReliable : AreReliable reads
reads-AreReliable = record {
  admin = refl;
  users = λ r. refl;
  devices = λ r. refl;
  domain_rules = λ r. refl;
  sessions = λ r. refl;
  usage = λ r. refl;
  audit_query = refl;
  audit = λ r. refl;
}

persist-snapshot_unsafe_example :
    let t = (persist windows disk_ok household no_tables).0 in
    (back : PolicyData) × (snapshot_unsafe windows crypto (codes "s") reads t ≡ some back)
    × ReadBack windows disk_ok crypto (codes "s") reads household back
unfolding persist tables_of insert_rows Dict.get any_by
persist-snapshot_unsafe_example =
    persist-snapshot_unsafe windows disk_ok crypto (codes "s") reads household no_tables
      household-IsKeyed (refl, tt) reads-AreReliable refl

set_admin_row-validate_admin_row_example :
    EndsSet windows disk_ok crypto
      (codes "s")
      (codes "secret")
      reads
      5
      no_tables
      (set_admin_row windows disk_ok crypto (codes "s") reads (codes "secret") 5 no_tables)
set_admin_row-validate_admin_row_example =
    set_admin_row-validate_admin_row windows disk_ok crypto (codes "s") (codes "secret") reads 5
      no_tables
