-- ===== src/Json/Compare.antt =====
-- Python's `==`, truth and `str` on JSON values.
use gjallar.Prelude.{
  ℕ, suc, String, Bool, true, false, not, ◌&&◌, ◌||◌, Option, none, some, nat_eq, ◌==◌,
}
use gjallar.Json.{
  Json, Items, Fields, null, bool, number, text, array, object, nil, cons, empty, field, get,
}

-- len(d)
abbrev pub size : Fields → ℕ
size empty = 0
size (field k v fs) = suc (size fs)

-- int(b)
abbrev pub bit : Bool → ℕ
bit true = 1
bit false = 0

unfoldable mutual
  unfolding get

  -- a == b; a bool is a number, and the order of a dict's keys is not compared
  pub json_eq : Json → Json → Bool
  json_eq null null = true
  json_eq (bool a) (bool b) = nat_eq (bit a) (bit b)
  json_eq (bool a) (number n) = nat_eq (bit a) n
  json_eq (number n) (bool b) = nat_eq n (bit b)
  json_eq (number m) (number n) = nat_eq m n
  json_eq (text s) (text t) = s == t
  json_eq (array xs) (array ys) = items_eq xs ys
  json_eq (object fs) (object gs) = nat_eq (size fs) (size gs) && included fs gs
  json_eq _ _ = false

  pub items_eq : Items → Items → Bool
  items_eq nil nil = true
  items_eq (cons x xs) (cons y ys) = json_eq x y && items_eq xs ys
  items_eq _ _ = false

  -- each item of the first dict is an item of the second
  pub included : Fields → Fields → Bool
  included empty gs = true
  included (field k v fs) gs =
      elim (get k gs) [ none ↦ false | some w ↦ json_eq v w ] && included fs gs

-- a.get(k) == b.get(k), where an absent key counts as None
abbrev pub or_null : Option Json → Json
or_null none = null
or_null (some v) = v

-- bool(v)
abbrev pub is_truthy : Json → Bool
is_truthy null = false
is_truthy (bool b) = b
is_truthy (number n) = not (nat_eq n 0)
is_truthy (text s) = not (s == "")
is_truthy (array nil) = false
is_truthy (array (cons x xs)) = true
is_truthy (object empty) = false
is_truthy (object (field k v fs)) = true

-- k in d
abbrev pub has_key : String → Fields → Bool
has_key k fs = elim (get k fs) [ none ↦ false | some v ↦ true ]

-- set(d) == {j, k}
abbrev pub only_keys : String → String → Fields → Bool
only_keys j k empty = true
only_keys j k (field i v fs) = ((i == j) || (i == k)) && only_keys j k fs

unfoldable pub has_keys : String → String → Fields → Bool
unfolding get
has_keys j k fs = has_key j fs && has_key k fs && only_keys j k fs

-- d if isinstance(d, Mapping) else {}
abbrev pub mapping : Option Json → Fields
mapping (some (object fs)) = fs
mapping _ = empty
