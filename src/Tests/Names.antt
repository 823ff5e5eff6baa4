-- ===== src/Tests/Names.antt =====
-- The theorems on names at concrete names, and the names themselves.
use dploy.Prelude.{◌≤◌, ◌≡◌, refl, ◌++◌, arith, length, select}
use dploy.Prelude.Text.{Text, codes}
use dploy.Naming.{
  sanitize, sanitize_owner, claim_name, max_owner_len, is_key_char, to_lower, to_dash, clean,
  trim_left, trim_right, trim,
}
use dploy.Naming.{workload_namespace}
use dploy.Naming.Workload.{workload_namespace-IsKey}
use dploy.Naming.Trim.{IsKey}
use dploy.Naming.OwnerKey.{sanitize-sanitize_owner}
use dploy.Naming.ClaimName.{claim_name-injective, claim_name_collides}

sanitize_mail : sanitize (codes "Alice.B@Example.org!") ≡ codes "alice-b-example-org"
unfolding sanitize clean trim trim_left trim_right is_key_char to_lower to_dash select
sanitize_mail = refl

abbrev mail : Text
mail = codes "-Alice.B@Example.org"

sanitize-sanitize_owner_example :
    (sanitize (sanitize_owner mail) ≡ sanitize_owner mail)
    × (length (sanitize_owner mail) ≤ max_owner_len)
sanitize-sanitize_owner_example = sanitize-sanitize_owner mail

abbrev short_id : Text
short_id = codes "0a1b2c3d"

short_id-IsKey : IsKey short_id
unfolding is_key_char
short_id-IsKey = record {
  clean = (refl, (refl, (refl, (refl, (refl, (refl, (refl, (refl, tt))))))));
  no_leading_dash = refl;
  no_trailing_dash = refl;
}

claim_name_lab : claim_name (codes "alice") (codes "x-lab") ≡ codes "alice-x-lab"
unfolding claim_name
claim_name_lab = refl

claim_name-injective_example : (codes "alice" ≡ codes "alice") × (codes "x-lab" ≡ codes "x-lab")
claim_name-injective_example =
    claim_name-injective (codes "alice") (codes "alice") (codes "x-lab") (codes "x-lab")
      (omega arith) (omega arith) (omega arith) (omega arith) refl

claim_name_collides_example :
    claim_name (codes "alice" ++ (codes "-" ++ codes "x")) (codes "lab")
    ≡ claim_name (codes "alice") (codes "x" ++ (codes "-" ++ codes "lab"))
claim_name_collides_example = claim_name_collides (codes "alice") (codes "x") (codes "lab")

workload_namespace-IsKey_example :
    IsKey (workload_namespace (codes "alice") (codes "lab") short_id)
    × (length (workload_namespace (codes "alice") (codes "lab") short_id) ≤ 50)
workload_namespace-IsKey_example =
    workload_namespace-IsKey (codes "alice") (codes "lab") short_id short_id-IsKey refl
