-- ===== src/Demo/Resource/Terms.antt =====
-- The terms that resource-server.mjs offers, and those that it asks its facilitator to enforce.
use xahc.Prelude.{ℕ, ◌≡◌, refl, true, some}
use xahc.Prelude.Text.{Text, text_eq}
use xahc.Message.{ok}
use xahc.Js.{str}
use xahc.Libs.{Libs, is_valid_r_address}
use xahc.Amount.Drops.{parse_strict_drops}
use xahc.Verify.{exact, upto, native, read_scheme, read_price, read_terms}
use xahc.Demo.Resource.{offer, requirements}

-- For a valid merchant and price, the offer asks for exactly the price, and the requirements that the
-- facilitator is sent for the same resource ask for at most the price.
pub read_terms-offer :
    (libs : Libs) (merchant path price : Text) (max : ℕ)
    → is_valid_r_address libs (str merchant) ≡ true
    → parse_strict_drops (str price) ≡ some max
    → (read_terms libs (offer merchant path price)
        ≡ ok (record { scheme = exact; price = native max }))
      × (read_terms libs (requirements (offer merchant path price))
          ≡ ok (record { scheme = upto; price = native max }))
unfolding read_terms read_scheme read_price offer requirements text_eq
read_terms-offer libs merchant path price max hm hp = (rw (hm, hp) refl, rw (hm, hp) refl)
