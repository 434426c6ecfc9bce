-- ===== src/Examples/Listings.antt =====
-- Listings, fingerprints and renamings of apps/api/src on small inputs.
use fulfill_os.Prelude.{◌≡◌, List, [], ◌∷◌, ◌==◌, if◌then◌else◌}
use fulfill_os.Prelude.Int.{pos}
use fulfill_os.Common.CanonicalJson.{
  number, object, Fields, end, field, units, canonical_fingerprint,
}
use fulfill_os.Common.CanonicalJson.KeyOrder.{same_object, swapped, canonical_fingerprint-SameJson}
use fulfill_os.Database.{Db}
use fulfill_os.Organizations.{Organization, get_organization, rename_organization}
use fulfill_os.Organizations.Scope.{named_row, rename_organization_only}
use fulfill_os.Examples.Shop.{platform, shop, order}

abbrev delta_first : Fields
delta_first = field (units "delta") (number (pos 4)) (field (units "reason") (number (pos 1)) end)

abbrev reason_first : Fields
reason_first = field (units "reason") (number (pos 1)) (field (units "delta") (number (pos 4)) end)

canonical_fingerprint-SameJson_example :
    canonical_fingerprint platform (object delta_first)
    ≡ canonical_fingerprint platform (object reason_first)
canonical_fingerprint-SameJson_example =
    canonical_fingerprint-SameJson platform (object delta_first) (object reason_first)
      (same_object (swapped (λ h. cc)))

abbrev three_orders : Db
three_orders = record shop {
  orders =
      record order { id = 3; created_at = 5 }
      ∷ record order { id = 4; created_at = 9 }
      ∷ record order { id = 5; created_at = 5 }
      ∷ [];
}

abbrev two : List Organization
two =
    record { id = 1; name = "Ann's shop"; created_at = 1; updated_at = 1 }
    ∷ record { id = 2; name = "Bob's shop"; created_at = 2; updated_at = 2 }
    ∷ []

rename_organization_only_example :
    ((rename_organization 1 "Ann and sons" 9 two).0
      ≡ named_row "Ann and sons" 9 (get_organization 1 two))
    × (get_organization 2 (rename_organization 1 "Ann and sons" 9 two).1 ≡ (
        if 1 == 2
        then named_row "Ann and sons" 9 (get_organization 2 two)
        else get_organization 2 two))
rename_organization_only_example = rename_organization_only 1 2 "Ann and sons" 9 two
