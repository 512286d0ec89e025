-- ===== src/Tests/Nics.antt =====
-- The theorems of the VmNetwork modules at concrete inputs.
use gjallar.Prelude.{
  ℕ, ◌≡◌, ◌≤◌, refl, String, Bool, true, false, Option, none, some, List, [], ◌∷◌, length, arith,
}
use gjallar.Prelude.Text.{codes}
use gjallar.Result.{ok}
use gjallar.HostConfig.{is_identifier}
use gjallar.VmNetwork.{Options, lookup, parse_net0, replace_network}
use gjallar.VmNetwork.Roundtrip.{IsTagRead, replaced_lookup, replace_network-parse_net0}
use gjallar.Tests.Data.{platform}

abbrev net1 : String
net1 = "virtio=BC:24:11:00:00:01,bridge=vmbr0,firewall=1"

abbrev options1 : Options
options1 = ("virtio", "BC:24:11:00:00:01") ∷ ("bridge", "vmbr0") ∷ ("firewall", "1") ∷ []

abbrev changed1 : String
changed1 = "virtio=BC:24:11:00:00:01,bridge=vmbr1,firewall=1,tag=20"

identifier1 : is_identifier "vmbr1" ≡ true
unfolding is_identifier
identifier1 = refl

read1 : IsTagRead platform (some 20)
unfolding IsTagRead gjallar.Prelude.Text.number_of gjallar.Lock.Locator.decimal
read1 = (refl, refl, omega arith, omega arith)

parsed1 : parse_net0 platform net1 ≡ ok options1
unfolding parse_net0 gjallar.Prelude.Parts.split_at gjallar.Prelude.Parts.cut_once is_identifier
parsed1 = refl

replaced1 : replace_network platform net1 "vmbr1" (some 20) ≡ ok changed1
unfolding replace_network gjallar.Prelude.Parts.split_at gjallar.Prelude.Parts.cut_once
    is_identifier gjallar.Prelude.Parts.join_with
replaced1 = refl

replace_network-parse_net0_example :
    (new : Options) × (parse_net0 platform changed1 ≡ ok new)
    × ((key : String) → lookup key new ≡ replaced_lookup "vmbr1" (some 20) options1 key)
replace_network-parse_net0_example =
    replace_network-parse_net0 platform net1 "vmbr1" changed1 (some 20) options1 identifier1 read1
      parsed1 replaced1 (omega arith)
