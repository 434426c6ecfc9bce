-- ===== src/Examples/Shop.antt =====
-- A small shop: the rows of apps/api/src/database/schema that the examples run on.
use fulfill_os.Prelude.{ℕ, refl, none, List, [], ◌∷◌, ◌+◌, ◌*◌, arith}
use fulfill_os.Prelude.Int.{ℤ, pos, negsuc}
use fulfill_os.Common.CanonicalJson.{units}
use fulfill_os.Platform.{Platform, Env}
use fulfill_os.Database.{Db, Product, Order, OrderItem, empty_db}
use fulfill_os.Database.Enums.{is_pending, active, pending}
use fulfill_os.Stocks.{stock_of, stock_by_id}
use fulfill_os.OrderTable.{order_by_id}
use fulfill_os.Reservations.Backed.{IsBacked}

-- A hash that a reader can follow: the digits in base 1000.
abbrev pub hash : List ℕ → ℕ
hash [] = 0
hash (x ∷ xs) = x + 1000 * hash xs

abbrev pub digits : ℤ → List ℕ
digits (pos n) = n ∷ []
digits (negsuc n) = 45 ∷ (n + 1) ∷ []

abbrev pub platform : Platform
platform = record {
  session_cookie_name = units "fulfillos.sid";
  parse_uuid = λ x. x;
  to_date = λ t. t;
  text_units = λ x. x ∷ [];
  lower_btrim = λ x. x;
  lower_trim = λ x. x;
  quote = λ xs. 34 ∷ xs;
  print_number = digits;
  sha256 = hash;
}

abbrev pub env : Env
env = record { now = 50; new_id = 8; new_inventory_id = 103 }

abbrev pub product : ℕ → Product
product i = record {
  id = i;
  organization_id = 1;
  sku = "SKU";
  sku_normalized = "sku";
  name = "Thing";
  description = none;
  unit_price_cents = 250;
  status = active;
  created_at = 1;
}

abbrev pub order : Order
order = record {
  id = 7;
  organization_id = 1;
  status = pending;
  currency = "USD";
  created_at = 2;
  updated_at = 2;
  cancelled_at = none;
  fulfilled_at = none;
}

abbrev pub lines : List OrderItem
lines =
    record {
      organization_id = 1;
      order_id = 7;
      product_id = 11;
      quantity = 3;
      unit_price_cents = 250;
    }
    ∷ []

-- Two products in stock, one without a stock row, and a pending order that holds three of the
-- first.
abbrev pub shop : Db
shop = record empty_db {
  products = product 11 ∷ product 12 ∷ product 13 ∷ [];
  inventory =
      record { id = 101; organization_id = 1; product_id = 11; on_hand = 10; reserved = 3 }
      ∷ record { id = 102; organization_id = 1; product_id = 12; on_hand = 5; reserved = 0 }
      ∷ [];
  orders = order ∷ [];
  order_items = lines;
}

pub shop-IsBacked : IsBacked shop
unfolding stock_of stock_by_id order_by_id is_pending
shop-IsBacked = record {
  keyed = (refl, refl, (refl, refl, tt));
  bounded = ground arith;
  orders_keyed = (refl, tt);
  owned = ((_, refl, refl), tt);
  stocked = ((_, refl, refl), tt);
  distinct = λ i p. ground arith;
  backed = λ p. ground arith;
}
