-- ===== src/Tests/Networks.antt =====
-- The theorems of the HostNetwork modules at concrete inputs.
use gjallar.Prelude.{
  ℕ, ◌+◌, ◌≡◌, ◌≤◌, ◌<◌, refl, String, Bool, true, false, not, ◌&&◌, ◌||◌, Option, none, some, List,
  [], ◌∷◌, All, any, arith, leb, nat_eq, ◌==◌, if◌then◌else◌,
}
use gjallar.Prelude.Text.{words, join_words}
use gjallar.Result.{ok}
use gjallar.HostNetwork.Vlan.{vlan_ranges, group_texts, bounds_of}
use gjallar.HostNetwork.Vlan.Values.{names, within}
use gjallar.HostNetwork.Vlan.Canonical.{covers, IsApart, vlan_ranges_cover, vlan_ranges_unique}
use gjallar.HostNetwork.Diff.{Review, counts_old, counts_new, diff_lines, assert_pending_diff}
use gjallar.HostNetwork.Diff.Loop.{is_allowed, is_edit, declared, shown}
use gjallar.HostNetwork.Diff.Safety.{
  is_confined, assert_pending_diff_lines, assert_pending_diff_confined,
}

merged : vlan_ranges "7 1-3 2-4" ≡ ok "1-4 7"
unfolding vlan_ranges gjallar.Prelude.Text.is_blank words
merged = refl

merged_again : vlan_ranges "1-4 7" ≡ ok "1-4 7"
unfolding vlan_ranges gjallar.Prelude.Text.is_blank words
merged_again = refl

vlan_ranges_cover_example :
    (groups : List (ℕ × ℕ)) × ("1-4 7" ≡ join_words (group_texts groups))
    × IsApart 0 groups
    × ((k : ℕ) → covers k groups ≡ names k (words "7 1-3 2-4"))
vlan_ranges_cover_example = vlan_ranges_cover "7 1-3 2-4" "1-4 7" merged

same_numbers :
    (k : ℕ)
    → (within k (7, 7) || (within k (1, 3) || (within k (2, 4) || false)))
      ≡ (within k (1, 4) || (within k (7, 7) || false))
same_numbers k = ground arith

same_names : (k : ℕ) → names k (words "7 1-3 2-4") ≡ names k (words "1-4 7")
unfolding words bounds_of
same_names k = same_numbers k

abbrev canonical1 : String
canonical1 = "1-4 7"

vlan_ranges_unique_example : canonical1 ≡ canonical1
vlan_ranges_unique_example =
    vlan_ranges_unique "7 1-3 2-4" "1-4 7" canonical1 canonical1 merged merged_again same_names

abbrev review1 : Review
review1 = record {
  bridge_id = "vmbr1";
  is_create = false;
  desired = record { autostart = true; vlan_aware = true; vlan_ids = some "2-9" };
  observed_before = some (record { autostart = true; vlan_aware = true; vlan_ids = some "2-4" });
}

abbrev changes1 : String
changes1 =
    "--- /etc/network/interfaces\t1\n+++ /etc/network/interfaces.new\t2\n@@ -1,2 +1,2 @@\n iface\n-\tbridge-vids 2-4\n+\tbridge-vids 2-9\n"

accepted1 : assert_pending_diff changes1 review1 ≡ ok tt
unfolding assert_pending_diff gjallar.Prelude.Text.is_blank
accepted1 = refl

assert_pending_diff_lines_example :
    (lines : List String) × (diff_lines changes1 ≡ some lines)
    × All (λ line. is_allowed review1 line ≡ true) lines
    × (any is_edit lines ≡ true)
    × (shown counts_old lines ≡ declared (λ counts. counts.0) lines)
    × (shown counts_new lines ≡ declared (λ counts. counts.1) lines)
assert_pending_diff_lines_example = assert_pending_diff_lines changes1 review1 accepted1

assert_pending_diff_confined_example :
    (lines : List String) × (diff_lines changes1 ≡ some lines)
    × All (λ line. is_confined review1 line ≡ true) lines
assert_pending_diff_confined_example = assert_pending_diff_confined changes1 review1 refl accepted1
