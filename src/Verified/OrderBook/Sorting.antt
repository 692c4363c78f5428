-- ===== src/Verified/OrderBook/Sorting.antt =====
-- The order of the book of a quote (src/dex/verified/pools/secondary/secondaryPool.ts).
use verified_paraswap.Prelude.{Bool, true, false, ◌≡◌, List, [], ◌∷◌, All}
use mathlib.Core.List.{Perm}
use mathlib.Core.List.Perm
use verified_paraswap.Prelude.Int.{ℤ}
use verified_paraswap.Prelude.Text.{Text}
use verified_paraswap.Verified.Types.{OrdersState}
use verified_paraswap.Verified.Prices.{SwapSide, sell, buy}
use verified_paraswap.Verified.OrderBook.{Numbers, positive}

-- No order is beaten by one that stands behind it.
abbrev pub Unbeaten : (OrdersState → OrdersState → Bool) → List OrdersState → Type 0
Unbeaten beaten [] = Unit {0}
Unbeaten beaten (o ∷ os) = All (λ p. beaten o p ≡ false) os × Unbeaten beaten os

module _ {F : Type 0} (num : Numbers F) where
  -- JavaScript's `<` on the numbers of integers, which are no NaN: a difference is positive where the
  -- second is less, no two are less than each other, and the lack of `<` is transitive.
  pub record IsOrder : Type 0 where
    pub differences :
        (a b : ℤ)
        → positive num (num.minus (num.number a) (num.number b))
          ≡ num.less (num.number b) (num.number a)
    pub asymmetric :
        (a b : ℤ)
        → num.less (num.number a) (num.number b) ≡ true
        → num.less (num.number b) (num.number a) ≡ false
    pub transitive :
        (a b c : ℤ)
        → num.less (num.number a) (num.number b) ≡ false
        → num.less (num.number b) (num.number c) ≡ false
        → num.less (num.number a) (num.number c) ≡ false

  -- For a sale an order is beaten by one of a higher price, for a purchase by one of a lower price.
  abbrev pub beaten : SwapSide → OrdersState → OrdersState → Bool
  beaten sell o p = num.less (num.number o.price_offered) (num.number p.price_offered)
  beaten buy o p = num.less (num.number p.price_offered) (num.number o.price_offered)
