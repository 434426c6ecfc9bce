-- ===== src/Examples/Answers.antt =====
-- Answers of apps/api/src/inventory/inventory.service.ts, of the handlers of apps/api/src/auth/
-- auth.controller.ts, of the Idempotency-Key decorator and of apps/web/lib/api.ts on small inputs.
use fulfill_os.Prelude.{◌≡◌, refl, true, none, some, [], ◌∷◌}
use fulfill_os.Prelude.Int.{pos}
use fulfill_os.Common.CanonicalJson.{units}
use fulfill_os.Inventory.{list_inventory}
use fulfill_os.Idempotency.Header.{no_header, several_values, idempotency_key}
use fulfill_os.Access.{allowed, refused}
use fulfill_os.Auth.{login, sign_in}
use fulfill_os.Catalog.{product_of}
use fulfill_os.Products.{list_products}
use fulfill_os.Common.Pagination.{undecodable, invalid_cursor, Read}
use fulfill_os.Sessions.{new_session, sha256_hex, rotate_csrf_token}
use fulfill_os.Web.{responded, no_message, settle, is_session_expired}
use fulfill_os.Auth.Handlers.{login_handler, csrf_handler}
use fulfill_os.Examples.Shop.{platform, shop}
use fulfill_os.Examples.SignUps.{argon, names, nobody, ann_again, issue}

-- A product without a stock row has no line.
stock_lines :
    list_inventory 1 shop
    ≡ record {
      product_id = 11;
      sku = "SKU";
      name = "Thing";
      on_hand = 10;
      reserved = 3;
      available = pos 7;
    }
      ∷ record {
        product_id = 12;
        sku = "SKU";
        name = "Thing";
        on_hand = 5;
        reserved = 0;
        available = pos 5;
      }
      ∷ []
unfolding list_inventory product_of
stock_lines = refl

expired :
    is_session_expired (settle (λ b. no_message) (λ n. n ∷ []) (responded 401 (some tt))) ≡ true
unfolding settle is_session_expired
expired = refl

missing_key : idempotency_key (λ v. v) no_header ≡ refused 400
unfolding idempotency_key
missing_key = refl

-- A repeated header counts once, by its first value.
repeated_key :
    idempotency_key (λ v. v) (several_values (units "a" ∷ units "b" ∷ [])) ≡ allowed (units "a")
unfolding idempotency_key
repeated_key = refl

-- A sign-in of an unknown email sets no cookie.
unknown_email :
    (login_handler platform names true argon "dummy" issue ann_again nobody).cookies ≡ []
unfolding login_handler login sign_in
unknown_email = refl

bad_cursor :
    list_products platform 1 (record { limit = none; cursor = undecodable }) shop
    ≡ Read.refused invalid_cursor
unfolding list_products
bad_cursor = refl

-- The route gives out a new secret and leaves it on the session.
rotated :
    (csrf_handler platform names true
      (new_session platform 2 issue)
      90
      (record nobody { sessions = new_session platform 2 issue ∷ [] })).accounts.sessions
    ≡ record (new_session platform 2 issue) { csrf_secret_hash = sha256_hex platform 90 } ∷ []
unfolding csrf_handler rotate_csrf_token
rotated = refl
