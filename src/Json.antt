-- ===== src/Json.antt =====
-- JSON values, as the columns `details`, `payload` and `evidence` hold them, and Python's dict
-- operations on objects. Numbers are natural: the program stores ids, counts and ports there.
pub mod Compare
use gjallar.Prelude.{
  ℕ, ◌≡◌, refl, ap, ◌∙◌, String, Bool, true, false, Option, none, some, arith, ◌==◌, str_eq_iff,
  if◌then◌else◌,
}

mutual
  pub data Json : Type 0 where
    null : Json
    bool : Bool → Json
    number : ℕ → Json
    text : String → Json
    array : Items → Json
    object : Fields → Json

  pub data Items : Type 0 where
    nil : Items
    cons : Json → Items → Items

  pub data Fields : Type 0 where
    empty : Fields
    field : String → Json → Fields → Fields

-- d.get(k)
unfoldable pub get : String → Fields → Option Json
get k empty = none
get k (field j v fs) = if j == k then some v else get k fs

-- d[k] = v
unfoldable pub put : String → Json → Fields → Fields
put k v empty = field k v empty
put k v (field j w fs) = if j == k then field j v fs else field j w (put k v fs)

-- {**d, **patch}
unfoldable pub merge : Fields → Fields → Fields
unfolding put
merge d empty = d
merge d (field k v patch) = merge (put k v d) patch

-- str(d.get(k) or "") for a text field; every other JSON value counts as absent
unfoldable pub get_text : String → Fields → String
unfolding get
get_text k fs = elim (get k fs) [ some (text s) ↦ s | _ ↦ "" ]

-- d.get(k) is b
unfoldable pub get_is : String → Bool → Fields → Bool
unfolding get
get_is k true fs = elim (get k fs) [ some (bool b) ↦ b | _ ↦ false ]
get_is k false fs = elim (get k fs) [ some (bool b) ↦ (if b then false else true) | _ ↦ false ]

pub get-put :
    (k j : String) (v : Json) (fs : Fields)
    → get j (put k v fs) ≡ (if k == j then some v else get j fs)
unfolding get put
get-put k j v empty = refl
get-put k j v (field i w fs) =
    ground (arith, str_eq_iff k j, str_eq_iff i k, str_eq_iff i j, get-put k j v fs)

-- the last value that the patch gives the key, if it gives one
abbrev pub last_of : String → Fields → Option Json → Option Json
last_of k empty old = old
last_of k (field j v patch) old = last_of k patch (if j == k then some v else old)

pub get-merge : (k : String) (d patch : Fields) → get k (merge d patch) ≡ last_of k patch (get k d)
unfolding merge
get-merge k d empty = refl
get-merge k d (field j v patch) =
    get-merge k (put j v d) patch ∙ ap (last_of k patch) (get-put j k v d)
