-- ===== src/Catalog.antt =====
-- The `products` table (apps/api/src/database/schema/products.schema.ts) as the stock services read
-- it, and its invariant with `inventory`.
use fulfill_os.Prelude.{
  ℕ, String, same_text, ◌≡◌, Option, none, some, List, [], ◌∷◌, ◌==◌, ◌&&◌, if◌then◌else◌, arith,
  ◌≢◌,
}
use fulfill_os.Database.{Product, Stock}
use fulfill_os.Stocks.{stock_of}

unfoldable pub product_of : ℕ → List Product → Option Product
product_of i [] = none
product_of i (x ∷ xs) = if x.id == i then some x else product_of i xs

-- `WHERE id = i AND organization_id = g`
unfoldable pub find_product : ℕ → ℕ → List Product → Option Product
find_product i g [] = none
find_product i g (x ∷ xs) =
    if x.id == i && x.organization_id == g then some x else find_product i g xs

-- The rows of the unique index on an organization and a normalized SKU.
unfoldable pub find_sku : ℕ → String → List Product → Option Product
find_sku g sku [] = none
find_sku g sku (x ∷ xs) =
    if x.organization_id == g && same_text x.sku_normalized sku then some x else find_sku g sku xs

abbrev pub SkusKeyed : List Product → Type 0
SkusKeyed [] = Unit
SkusKeyed (x ∷ xs) = (find_sku x.organization_id x.sku_normalized xs ≡ none) × SkusKeyed xs

abbrev pub ProductsKeyed : List Product → Type 0
ProductsKeyed [] = Unit
ProductsKeyed (x ∷ xs) = (product_of x.id xs ≡ none) × ProductsKeyed xs

product_of-ne_none :
    (i g : ℕ) (xs : List Product) (x : Product)
    → find_product i g xs ≡ some x
    → product_of i xs ≢ none
unfolding product_of find_product
product_of-ne_none i g [] x h = cc
product_of-ne_none i g (y ∷ xs) x h = ground (arith, product_of-ne_none i g xs x)

pub product_of-find_product :
    (i g : ℕ) (xs : List Product) (x : Product)
    → ProductsKeyed xs
    → find_product i g xs ≡ some x
    → (product_of i xs ≡ some x) × (x.organization_id ≡ g)
unfolding product_of find_product
product_of-find_product i g [] x k h = cc
product_of-find_product i g (y ∷ xs) x k h =
    ground (arith, product_of-find_product i g xs x k.1, product_of-ne_none i g xs x)

-- Every stock row is the row of a product of its organization.
pub record IsCatalogued (products : List Product) (inventory : List Stock) : Type 0 where
  pub products_keyed : ProductsKeyed products
  pub of_product :
      (q : ℕ) (s : Stock)
      → stock_of q inventory ≡ some s
      → (x : Product) × (product_of q products ≡ some x) × (x.organization_id ≡ s.organization_id)
